-- ===== src/Auth/RecoveryCodes.antt =====
-- internal/auth/recovery_code_store.go: the recovery codes of the second factor.
use schlass.Base.{
  ℕ, ◌≡◌, refl, Bool, true, false, not, ◌&&◌, Option, none, some, List, [], ◌∷◌, ◌++◌, String, ◌==◌,
  length, if◌then◌else◌, Result, ok, err, All, arith, nat_eq,
}
use schlass.Store.Sql.{update_where, count_where, select_where, update_where-All}

pub record RecoveryCode : Type 0 where
  pub id : String
  pub user_id : String
  pub code_hash : String
  pub used_at : Option ℕ
  pub created_at : ℕ

abbrev pub is_null : Option ℕ → Bool
is_null none = true
is_null (some t) = false

-- One INSERT of the batch for each hash; the ids are what the database gives.
unfoldable pub insert :
    (now : ℕ) (user_id : String) → List (String × String) → List RecoveryCode → List RecoveryCode
insert now user_id [] codes = codes
insert now user_id ((id, hash) ∷ hashes) codes = insert now user_id hashes (
    codes
    ++ record { id = id; user_id = user_id; code_hash = hash; used_at = none; created_at = now }
      ∷ [])

abbrev pub is_unused_of : String → RecoveryCode → Bool
is_unused_of user_id c = c.user_id == user_id && is_null c.used_at

-- ORDER BY created_at, of a table that is kept in the order of insertion.
unfoldable pub list_unused : String → List RecoveryCode → List RecoveryCode
list_unused user_id codes = select_where (is_unused_of user_id) codes

unfoldable pub count_unused : String → List RecoveryCode → ℕ
count_unused user_id codes = count_where (is_unused_of user_id) codes

abbrev pub is_unused_id : String → RecoveryCode → Bool
is_unused_id id c = c.id == id && is_null c.used_at

abbrev pub burn : ℕ → RecoveryCode → RecoveryCode
burn now c = record c { used_at = some now }

-- No row affected is an error.
unfoldable pub mark_used :
    (now : ℕ) → String → List RecoveryCode → List RecoveryCode × Result (Unit {0}) (Unit {0})
mark_used now id codes =
    let n = count_where (is_unused_id id) codes in
    (update_where (is_unused_id id) (burn now) codes, if nat_eq n 0 then err tt else ok tt)

-- The rows that are left, and how many were deleted.
unfoldable pub delete_all_for_user : String → List RecoveryCode → List RecoveryCode × ℕ
delete_all_for_user user_id codes = (
  select_where (λ c. not (c.user_id == user_id)) codes,
  count_where (λ c. c.user_id == user_id) codes,
)

unused_burned :
    (now : ℕ) (id : String) (c : RecoveryCode)
    → is_unused_id id (if is_unused_id id c then burn now c else c) ≡ false
unused_burned now id c = ground arith

count_zero :
    (id : String) (codes : List RecoveryCode)
    → All (λ c. is_unused_id id c ≡ false) codes
    → count_where (is_unused_id id) codes ≡ 0
unfolding count_where
count_zero id [] h = refl
count_zero id (c ∷ codes) (h, hs) = rw h (count_zero id codes hs)

-- A recovery code is used at most once: after any attempt to mark it used, every later attempt is an error.
pub mark_used-mark_used :
    (now later : ℕ) (id : String) (codes : List RecoveryCode)
    → (mark_used later id (mark_used now id codes).0).1 ≡ err tt
unfolding mark_used
mark_used-mark_used now later id codes =
    rw
      (count_zero id _ (
        update_where-All (is_unused_id id) (is_unused_id id) (burn now) codes
          (unused_burned now id)))
      refl

-- The codes that are listed are as many as are counted; and after a user's codes are deleted there are none.
pub list_unused-count :
    (user_id : String) (codes : List RecoveryCode)
    → (length (list_unused user_id codes) ≡ count_unused user_id codes)
      × (count_unused user_id (delete_all_for_user user_id codes).0 ≡ 0)
unfolding list_unused count_unused delete_all_for_user select_where count_where
list_unused-count user_id [] = (refl, refl)
list_unused-count user_id (c ∷ codes) =
    let (listed, gone) = list_unused-count user_id codes in ground arith
