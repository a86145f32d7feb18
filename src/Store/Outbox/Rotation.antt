-- ===== src/Store/Outbox/Rotation.antt =====
-- `rotateFile` and `clearFile` of src/store/outbox.h. What the file system answers is an argument:
-- whether the rename, the copy and the opening of the old path for writing succeed.
use btc_multipool_cache_mine.Base.{
  ℕ, ◌≡◌, refl, List, [], Option, none, some, Bool, true, false, ◌||◌, if◌then◌else◌, arith,
}

-- What is at the old path and at the new one.
pub record Files : Type 0 where
  pub at_old : Option (List ℕ)
  pub at_new : Option (List ℕ)

unfoldable pub clear_file : Bool → Files → Bool × Files
clear_file opened f = (opened, if opened then record f { at_old = some [] } else f)

unfoldable pub rotate_file : Bool → Bool → Bool → Files → Bool × Files
rotate_file renamed copied opened f =
    if renamed
    then (true, record { at_old = none; at_new = f.at_old })
    else (let copy = (if copied then record f { at_new = f.at_old } else f) in
        (opened, if opened then record copy { at_old = some [] } else copy))

pub rotate_file-keeps :
    (renamed copied opened : Bool) (f : Files)
    → (renamed || copied) ≡ true
    → (rotate_file renamed copied opened f).1.at_new ≡ f.at_old
unfolding rotate_file
rotate_file-keeps true copied opened f h = refl
rotate_file-keeps false true true f h = refl
rotate_file-keeps false true false f h = refl
rotate_file-keeps false false opened f h = absurd (ground arith)

-- Where both the rename and the copy of `rotateFile` fail and the old path can be opened, it
-- returns true, the old file is empty, and the new path has what it had.
pub rotate_file_loses :
    (f : Files)
    → ((rotate_file false false true f).0 ≡ true)
      × ((rotate_file false false true f).1.at_old ≡ some [])
      × ((rotate_file false false true f).1.at_new ≡ f.at_new)
unfolding rotate_file
rotate_file_loses f = (refl, refl, refl)
