-- ===== src/Iocp/Opening.antt =====
-- `submit_open`: what CreateFileA is asked for.
use asco.Prelude.{
  ℕ, ◌≡◌, Bool, true, false, not, ◌&&◌, ◌↔◌, arith, List, [], ◌∷◌, ◌++◌, if◌then◌else◌,
}
use asco.IoUring.Request.{OpenFlag, CreateMode}
use asco.IoUring.Opening.{set_if}

-- The rights and the trustees of an entry of the list that grants access.
pub data Right : Type 0 where
  fr fw fx : Right

pub data Trustee : Type 0 where
  ow wd : Trustee

abbrev pub grant_if : Bool → Right → Trustee → List (Right × Trustee) → List (Right × Trustee)
grant_if b right trustee sddl = if b then sddl ++ (right, trustee) ∷ [] else sddl

-- `gen_sddl`, as the list of the entries that its text has
unfoldable pub gen_sddl : (CreateMode → Bool) → List (Right × Trustee)
gen_sddl contains = grant_if (contains CreateMode.execute_share) Right.fx Trustee.wd (
    grant_if (contains CreateMode.write_share) Right.fw Trustee.wd (
      grant_if (contains CreateMode.read_share) Right.fr Trustee.wd (
        grant_if (contains CreateMode.execute) Right.fx Trustee.ow (
          grant_if (contains CreateMode.write) Right.fw Trustee.ow
            (grant_if (contains CreateMode.read) Right.fr Trustee.ow [])))))

-- The constants of <windows.h>, in small letters.
pub record Access : Type 0 where
  pub generic_read : ℕ
  pub generic_write : ℕ
  pub file_append_data : ℕ
  pub delete : ℕ

unfoldable pub access_word : Access → (OpenFlag → Bool) → ℕ
access_word c contains = set_if (contains OpenFlag.temporary) c.delete (
    set_if (contains OpenFlag.append) c.file_append_data (
      set_if (contains OpenFlag.write) c.generic_write
        (set_if (contains OpenFlag.read) c.generic_read 0)))

-- `creation`, which is `unset` at first.
pub data Creation : Type 0 where
  unset open_existing open_always create_new create_always truncate_existing : Creation

abbrev pub creation_for : Bool → Bool → Bool → Creation
creation_for create exclusive truncate =
    if not create && not truncate
    then Creation.open_existing
    else if create && not exclusive && not truncate
    then Creation.open_always
    else if create && not truncate
    then Creation.create_new
    else if create && not exclusive && truncate
    then Creation.create_always
    else if not create && not exclusive && truncate
    then Creation.truncate_existing
    else Creation.unset

unfoldable pub creation : (OpenFlag → Bool) → Creation
creation contains =
    creation_for (contains OpenFlag.create) (contains OpenFlag.exclusive)
      (contains OpenFlag.truncate)

creation_cases :
    (create exclusive truncate : Bool)
    → (creation_for create exclusive truncate ≡ Creation.unset)
      ↔ ((exclusive ≡ true) × (truncate ≡ true))
creation_cases true true true = ground arith
creation_cases true true false = ground arith
creation_cases true false true = ground arith
creation_cases true false false = ground arith
creation_cases false true true = ground arith
creation_cases false true false = ground arith
creation_cases false false true = ground arith
creation_cases false false false = ground arith

-- CreateFileA is asked for no way of creation at all exactly when both `exclusive` and `truncate` are
-- among the flags, whatever else is.
pub creation_unset :
    (contains : OpenFlag → Bool)
    → (creation contains ≡ Creation.unset)
      ↔ ((contains OpenFlag.exclusive ≡ true) × (contains OpenFlag.truncate ≡ true))
unfolding creation
creation_unset contains =
    creation_cases (contains OpenFlag.create) (contains OpenFlag.exclusive)
      (contains OpenFlag.truncate)
