-- ===== src/Adapters/GbtRunner/Rounds.antt =====
-- src/adapters/gbt_runner.cc: what a run of rounds makes of the templates.
use btc_multipool_cache_mine.Base.{
  ℕ, ◌≡◌, refl, sym, ap, ◌∙◌, List, [], ◌∷◌, Option, none, some, true, false, replicate, All,
  All-append, arith, ◌⊎◌, inl, inr, Bool-cases,
}
use mathlib.Core.Path.{subst}
use btc_multipool_cache_mine.Base.Text.{same_text, same_text_refl}
use btc_multipool_cache_mine.Base.Checked.{Checked, ok, out_of_bounds, ◌>>=◌}
use btc_multipool_cache_mine.Normalize.Midstate.{sha256_midstate_64}
use btc_multipool_cache_mine.Normalize.Normalizer.{
  RawJobInputs, NormalizerResult, normalized, normalize_job,
}
use btc_multipool_cache_mine.Normalize.Targets.{compact_to_target_u32_le}
use btc_multipool_cache_mine.Adapters.GbtAdapter.{GbtAdapter, push, ingest_template}
use btc_multipool_cache_mine.Adapters.StratumRunner.Notify.{hex_to_32}
use btc_multipool_cache_mine.Adapters.GbtRunner.{
  Template, GbtRunner, gbt_inputs, merkle_text, told, ingest_round, new_block, with_prevhash, round,
  rounds,
}

-- The template lacks a member that a job needs.
abbrev pub IsLacking : Template → Type 0
IsLacking t = (t.version ≡ none) ⊎ (t.bits ≡ none) ⊎ (t.curtime ≡ none)

-- Every template of the run is on this block.
abbrev pub AreOn : List ℕ → List (Option Template) → Type 0
AreOn prevhash [] = Unit {0}
AreOn prevhash (none ∷ ts) = AreOn prevhash ts
AreOn prevhash (some t ∷ ts) = (t.previousblockhash ≡ some prevhash) × AreOn prevhash ts

rounds-AreOn :
    (hash : List ℕ → ℕ) (prevhash : List ℕ) (ts : List (Option Template)) (r : GbtRunner)
    → AreOn prevhash ts
    → same_text prevhash r.last_prevhash ≡ true
    → rounds hash ts r ≡ ok r
unfolding rounds round
rounds-AreOn hash prevhash [] r on known = refl
rounds-AreOn hash prevhash (none ∷ ts) r on known = rounds-AreOn hash prevhash ts r on known
rounds-AreOn hash prevhash (some t ∷ ts) r on known =
    rw (on.0, known) (rounds-AreOn hash prevhash ts r on.1 known)

lacking_round :
    (hash : List ℕ → ℕ) (prevhash : List ℕ) (t : Template) (v b c : Option ℕ) (r : GbtRunner)
    → (v ≡ none) ⊎ (b ≡ none) ⊎ (c ≡ none)
    → ingest_round hash prevhash t v b c r ≡ ok r
unfolding ingest_round
lacking_round hash prevhash t none b c r lacks = refl
lacking_round hash prevhash t (some v) none c r lacks = refl
lacking_round hash prevhash t (some v) (some b) none r lacks = refl
lacking_round hash prevhash t (some v) (some b) (some c) r lacks = absurd (grind arith)

-- Where the first template on a new block lacks its version, its bits or its time, the runner
-- notes the block and takes no job from it, nor from any later template on the same block,
-- complete ones included.
pub rounds-missed :
    (hash : List ℕ → ℕ) (prevhash : List ℕ) (t : Template) (later : List (Option Template))
    (r : GbtRunner)
    → t.previousblockhash ≡ some prevhash
    → same_text prevhash r.last_prevhash ≡ false
    → IsLacking t
    → AreOn prevhash later
    → rounds hash (some t ∷ later) r ≡ ok (record r { last_prevhash = prevhash })
unfolding rounds round new_block
rounds-missed hash prevhash t later r on new lacks later_on =
    let moved : GbtRunner = record r { last_prevhash = prevhash } in
    ap (λ p. with_prevhash hash t r p >>= (λ next. rounds hash later next)) on
    ∙ rw new (
        ap (λ c. c >>= (λ next. rounds hash later next))
          (lacking_round hash prevhash t t.version t.bits t.curtime moved lacks)
        ∙ rounds-AreOn hash prevhash later moved later_on (same_text_refl prevhash))

-- What holds of a value, if there is one.
abbrev pub Whenever {ℓ κ} : {A : Type ℓ} → (A → Type κ) → Checked A → Type κ
Whenever P (ok a) = P a
Whenever P out_of_bounds = Unit

Whenever-bind {ℓ κ μ ν} :
    {A : Type ℓ} {B : Type μ} (P : A → Type κ) (Q : B → Type ν) (c : Checked A) (f : A → Checked B)
    → Whenever P c
    → ((a : A) → P a → Whenever Q (f a))
    → Whenever Q (c >>= f)
Whenever-bind P Q (ok a) f p q = q a p
Whenever-bind P Q out_of_bounds f p q = tt

Any {ℓ} : {A : Type ℓ} → (c : Checked A) → Whenever (λ a. Unit {0}) c
Any (ok a) = tt
Any out_of_bounds = tt

-- The midstate is that of 64 zero bytes.
abbrev pub IsZeroBased : NormalizerResult → Type 0
IsZeroBased full = full.job_const.midstate_le ≡ sha256_midstate_64 (replicate 64 0)

abbrev pub AreZeroBased : GbtAdapter → Type 0
AreZeroBased a = All IsZeroBased a.q

abbrev IsBasedOutput : Option NormalizerResult → Type 0
IsBasedOutput none = Unit {0}
IsBasedOutput (some full) = IsZeroBased full

normalize_job-IsBasedOutput :
    (input : RawJobInputs)
    → input.header_first64 ≡ replicate 64 0
    → Whenever IsBasedOutput (normalize_job input)
unfolding normalize_job
normalize_job-IsBasedOutput input zeros =
    Whenever-bind (λ b. Unit {0}) IsBasedOutput (compact_to_target_u32_le input.job.nbits)
      (λ b. compact_to_target_u32_le input.share_nbits >>= (λ s. ok (some (normalized input b s))))
      (Any (compact_to_target_u32_le input.job.nbits))
      (λ b x.
        Whenever-bind (λ s. Unit {0}) IsBasedOutput (compact_to_target_u32_le input.share_nbits)
          (λ s. ok (some (normalized input b s))) (Any (compact_to_target_u32_le input.share_nbits))
          (λ s y. ap sha256_midstate_64 zeros))

push-AreZeroBased :
    (out : Option NormalizerResult) (a : GbtAdapter)
    → IsBasedOutput out
    → AreZeroBased a
    → AreZeroBased (push out a)
unfolding push
push-AreZeroBased none a based h = h
push-AreZeroBased (some full) a based h = All-append IsZeroBased a.q (full ∷ []) h (based, tt)

ingest_template-AreZeroBased :
    (input : RawJobInputs) (a : GbtAdapter)
    → input.header_first64 ≡ replicate 64 0
    → AreZeroBased a
    → Whenever AreZeroBased (ingest_template input a)
unfolding ingest_template
ingest_template-AreZeroBased input a zeros h =
    Whenever-bind IsBasedOutput AreZeroBased (normalize_job input) (λ out. ok (push out a))
      (normalize_job-IsBasedOutput input zeros) (λ out based. push-AreZeroBased out a based h)

told-adapter : (t : Template) (r : GbtRunner) → (told t r).adapter ≡ r.adapter
unfolding told
told-adapter t r = elim (Bool-cases r.has_submitter) [ inl e ↦ rw e | inr e ↦ rw e ]

abbrev pub IsBased : GbtRunner → Type 0
IsBased r = AreZeroBased r.adapter

ingest_round-IsBased :
    (hash : List ℕ → ℕ) (prevhash : List ℕ) (t : Template) (v b c : Option ℕ) (r : GbtRunner)
    → IsBased r
    → Whenever IsBased (ingest_round hash prevhash t v b c r)
unfolding ingest_round
ingest_round-IsBased hash prevhash t none b c r h = h
ingest_round-IsBased hash prevhash t (some v) none c r h = h
ingest_round-IsBased hash prevhash t (some v) (some b) none r h = h
ingest_round-IsBased hash prevhash t (some v) (some b) (some c) r h =
    Whenever-bind (λ p. Unit {0}) IsBased (hex_to_32 prevhash)
      (λ p.
        hex_to_32 (merkle_text t.merkleroot)
        >>= (λ m. ingest_template (gbt_inputs hash prevhash v b c p m) r.adapter >>= kept))
      (Any (hex_to_32 prevhash))
      (λ p x.
        Whenever-bind (λ m. Unit {0}) IsBased (hex_to_32 (merkle_text t.merkleroot))
          (λ m. ingest_template (gbt_inputs hash prevhash v b c p m) r.adapter >>= kept)
          (Any (hex_to_32 (merkle_text t.merkleroot)))
          (λ m y.
            Whenever-bind AreZeroBased IsBased
              (ingest_template (gbt_inputs hash prevhash v b c p m) r.adapter) kept
              (ingest_template-AreZeroBased (gbt_inputs hash prevhash v b c p m) r.adapter refl h)
              (λ a based.
                subst AreZeroBased (sym (told-adapter t (record r { adapter = a }))) based)))
  where
    kept : GbtAdapter → Checked GbtRunner
    kept a = ok (told t (record r { adapter = a }))

with_prevhash-IsBased :
    (hash : List ℕ → ℕ) (t : Template) (r : GbtRunner) (p : Option (List ℕ))
    → IsBased r
    → Whenever IsBased (with_prevhash hash t r p)
unfolding new_block
with_prevhash-IsBased hash t r none h = h
with_prevhash-IsBased hash t r (some p) h = elim (Bool-cases (same_text p r.last_prevhash)) [
  | inl e ↦ rw e h
  | inr e ↦
      rw e (
        ingest_round-IsBased hash p t t.version t.bits t.curtime (record r { last_prevhash = p }) h)
]

round-IsBased :
    (hash : List ℕ → ℕ) (t : Option Template) (r : GbtRunner)
    → IsBased r
    → Whenever IsBased (round hash t r)
unfolding round
round-IsBased hash none r h = h
round-IsBased hash (some t) r h = with_prevhash-IsBased hash t r t.previousblockhash h

-- Whatever templates come, where the rounds lead to no fault every queued result has the midstate
-- of 64 zero bytes, if those before had it: it does not depend on the block.
pub rounds-IsBased :
    (hash : List ℕ → ℕ) (ts : List (Option Template)) (r : GbtRunner)
    → IsBased r
    → Whenever IsBased (rounds hash ts r)
unfolding rounds
rounds-IsBased hash [] r h = h
rounds-IsBased hash (t ∷ ts) r h =
    Whenever-bind IsBased IsBased (round hash t r) (λ next. rounds hash ts next)
      (round-IsBased hash t r h) (λ next based. rounds-IsBased hash ts next based)
