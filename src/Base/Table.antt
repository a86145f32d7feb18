-- ===== src/Base/Table.antt =====
-- An `unordered_map` with integer keys: the list of its entries, of which the order is not read.
use Prim.Native.Nat.{ℕ, suc, ◌≤◌}
use mathlib.Core.Path.{◌≡◌, refl, sym, ap}
use mathlib.Core.Logic.{◌≢◌, inl, inr}
use mathlib.Core.Bool.{Bool, true, false}
use mathlib.Core.Option.{Option, none, some, some-ne-none}
use mathlib.Core.List.{List, [], ◌∷◌}
use native.Mathlib.Omega.{arith}
use btc_multipool_cache_mine.Base.Tests.{if◌then◌else◌, ◌==◌, eq→==, ne→==, ==→eq, Bool-cases}
use btc_multipool_cache_mine.Base.Lists.{length}

module _ {ℓ} {V : Type ℓ} where
  abbrev pub lookup : ℕ → List (ℕ × V) → Option V
  lookup k [] = none
  lookup k ((j, v) ∷ t) = if j == k then some v else lookup k t

  abbrev pub assign : ℕ → V → List (ℕ × V) → List (ℕ × V)
  assign k v [] = (k, v) ∷ []
  assign k v ((j, w) ∷ t) = if j == k then (k, v) ∷ t else (j, w) ∷ assign k v t

  abbrev pub remove : ℕ → List (ℕ × V) → List (ℕ × V)
  remove k [] = []
  remove k ((j, w) ∷ t) = if j == k then remove k t else (j, w) ∷ remove k t

  abbrev pub has : ℕ → List (ℕ × V) → Bool
  has k t = elim (lookup k t) [ none ↦ false | some v ↦ true ]

  pub has-none : (k : ℕ) (t : List (ℕ × V)) → lookup k t ≡ none → has k t ≡ false
  has-none k t h = rw (has, h)

  pub lookup-assign_self : (k : ℕ) (v : V) (t : List (ℕ × V)) → lookup k (assign k v t) ≡ some v
  lookup-assign_self k v [] = rw (eq→== k k refl)
  lookup-assign_self k v ((j, w) ∷ t) = elim (Bool-cases (j == k)) [
    | inl e ↦ rw (e, eq→== k k refl)
    | inr e ↦ rw (e, lookup, e) (lookup-assign_self k v t)
  ]

  pub lookup-assign_ne :
      (k i : ℕ) (v : V) (t : List (ℕ × V)) → i ≢ k → lookup i (assign k v t) ≡ lookup i t
  lookup-assign_ne k i v [] ne = rw (ne→== k i (λ e. ne (sym e)))
  lookup-assign_ne k i v ((j, w) ∷ t) ne = elim (Bool-cases (j == k)) [
    | inl e ↦ rw (e, lookup, ==→eq j k e, ne→== k i (λ e'. ne (sym e')))
    | inr e ↦ rw (e, lookup, lookup-assign_ne k i v t ne)
  ]

  pub lookup-remove_self : (k : ℕ) (t : List (ℕ × V)) → lookup k (remove k t) ≡ none
  lookup-remove_self k [] = refl
  lookup-remove_self k ((j, w) ∷ t) = elim (Bool-cases (j == k)) [
    | inl e ↦ rw e (lookup-remove_self k t)
    | inr e ↦ rw (e, lookup, e) (lookup-remove_self k t)
  ]

  pub lookup-remove_ne : (k i : ℕ) (t : List (ℕ × V)) → i ≢ k → lookup i (remove k t) ≡ lookup i t
  lookup-remove_ne k i [] ne = refl
  lookup-remove_ne k i ((j, w) ∷ t) ne = elim (Bool-cases (j == k)) [
    | inl e ↦ rw (e, lookup, ==→eq j k e, ne→== k i (λ e'. ne (sym e'))) (lookup-remove_ne k i t ne)
    | inr e ↦ rw (e, lookup, lookup-remove_ne k i t ne)
  ]

  pub length-assign_new :
      (k : ℕ) (v : V) (t : List (ℕ × V))
      → lookup k t ≡ none
      → length (assign k v t) ≡ suc (length t)
  length-assign_new k v [] h = refl
  length-assign_new k v ((j, w) ∷ t) h = elim (Bool-cases (j == k)) [
    | inl e ↦ absurd (some-ne-none w (rw e at h))
    | inr e ↦ rw e (ap suc (length-assign_new k v t (rw e at h)))
  ]

  pub length-remove : (k : ℕ) (t : List (ℕ × V)) → length (remove k t) ≤ length t
  length-remove k [] = omega arith
  length-remove k ((j, w) ∷ t) = elim (Bool-cases (j == k)) [
    | inl e ↦ rw e (omega (arith, length-remove k t))
    | inr e ↦ rw e (omega (arith, length-remove k t))
  ]

  pub length-assign_old :
      (k : ℕ) (v u : V) (t : List (ℕ × V)) → lookup k t ≡ some u → length (assign k v t) ≡ length t
  length-assign_old k v u [] h = absurd (some-ne-none u (sym h))
  length-assign_old k v u ((j, w) ∷ t) h = elim (Bool-cases (j == k)) [
    | inl e ↦ rw e
    | inr e ↦ rw e (ap suc (length-assign_old k v u t (rw e at h)))
  ]
