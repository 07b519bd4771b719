-- ===== src/Users/Admin/Phases.antt =====
-- How the phases end that the handlers of the user administration share.
use schlass.Base.{
  ◌≡◌, refl, Option, none, some, List, String, Outcome, Ends, Ends-go_on, Ends-weaken, go_on, arith,
  value_or,
}
use schlass.Store.Tables.{User, Entry}
use schlass.Valkey.Server.{Valkey}
use schlass.Auth.Env.{Lib, Config, Env, Reply, World}
use schlass.Auth.Steps.{Step, begin_transaction}
use schlass.Users.Admin.{begin_current, commit_one, commit_two, reject_self_op}
use schlass.Users.Admin.Status.{begin_as}
use schlass.Users.Admin.Tables.{IsAdministered, IsCounted}

module _ (K : Valkey) (env : Env) (w : World K) where
  abbrev pub users : List User
  users = w.db.core.users

  abbrev pub Fresh : World K → Type 0
  Fresh s = (s.db ≡ w.db) × (s.view ≡ w.db)

  -- What the phase of a row leaves in the transaction.
  abbrev pub Changed : String → List User → World K → Type 0
  Changed id after s = (s.db ≡ w.db) × (s.view.core.users ≡ after) × IsCounted id users after

  abbrev pub Safe : Reply → World K → Type 0
  Safe r s = IsAdministered s.db.core.users

  -- The rule of sequence, for a phase that changes no table.
  pub and_then :
      {A : Type 0} (P : A → World K → Type 0) (m : World K × Outcome Reply A) (f : A → Step K env ⊥)
      → IsAdministered users
      → Ends P (λ _ s. s.db ≡ w.db) m
      → ((a : A) (s : World K) → P a s → Ends (λ _ _. ⊥) Safe (f a s))
      → Ends {A = ⊥} (λ _ _. ⊥) Safe (go_on m f)
  and_then P m f healthy h rest =
      Ends-go_on P (λ _ _. ⊥) Safe m f
        (Ends-weaken P (λ _ s. s.db ≡ w.db) Safe m (λ r s same. rw same healthy) h) rest

  pub parsed :
      {A : Type 0} (o : Option A) (r : Reply)
      → Ends (λ _ s. s ≡ w) (λ _ s. s.db ≡ w.db) (value_or {S = World K} o r w)
  parsed none r = refl
  parsed (some a) r = refl

  pub parsed_later :
      {A : Type 0} (o : Option A) (r : Reply) (s : World K)
      → s.db ≡ w.db
      → Ends (λ _ s'. s' ≡ s) (λ _ s'. s'.db ≡ w.db) (value_or {S = World K} o r s)
  parsed_later none r s same = same
  parsed_later (some a) r s same = refl

  pub begin_transaction-Ends :
      (failed : Reply)
      → Ends (λ _ s. Fresh s) (λ _ s. s.db ≡ w.db) (begin_transaction K env failed w)
  begin_transaction-Ends failed = ground arith

module _ (K : Valkey) (lib : Lib) (config : Config) (env : Env) (w : World K) where
  pub commit_one-Ends :
      (entry : Entry) (s : World K) (after : List User)
      → s.db ≡ w.db
      → s.view.core.users ≡ after
      → Ends
          (λ _ s'. s'.db.core.users ≡ after)
          (λ _ s'. s'.db ≡ w.db)
          (commit_one K lib config env entry s)
  unfolding commit_one
  commit_one-Ends entry s after same is = ground arith

  pub commit_two-Ends :
      (entry other : Entry) (s : World K) (after : List User)
      → s.db ≡ w.db
      → s.view.core.users ≡ after
      → Ends
          (λ _ s'. s'.db.core.users ≡ after)
          (λ _ s'. s'.db ≡ w.db)
          (commit_two K lib config env entry other s)
  unfolding commit_two
  commit_two-Ends entry other s after same is = ground arith

  pub begin_as-Ends :
      (id : String)
      → Ends (λ _ s. Fresh K env w s) (λ _ s. s.db ≡ w.db) (begin_as K lib config env id w)
  unfolding reject_self_op begin_current
  begin_as-Ends id = ground arith

  pub begin_current-Ends :
      Ends (λ _ s. Fresh K env w s) (λ _ s. s.db ≡ w.db) (begin_current K lib config env w)
  unfolding begin_current
  begin_current-Ends = ground arith

  pub reject_self_op-Ends :
      (id : String)
      → Ends (λ _ s. s ≡ w) (λ _ s. s.db ≡ w.db) (reject_self_op K lib config env id w)
  unfolding reject_self_op
  reject_self_op-Ends id = ground arith
