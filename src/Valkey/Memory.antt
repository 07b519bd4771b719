-- ===== src/Valkey/Memory.antt =====
-- A server in memory whose commands all succeed and whose keys do not expire: it meets the laws of
-- the interface, and serves the examples.
use schlass.Base.{ℕ, ℤ, true, false, ◌≡◌, refl, Option, none, some, List, [], String, if◌then◌else◌}
use schlass.Valkey.Keys.{Key, Value}
use schlass.Valkey.Server.{Reply, found, missing, failed, replay, replay_set, deletes, Valkey}

pub record Cells : Type 0 where
  pub value : Key → Option Value
  pub items : Key → List String
  pub texts : Key → String → Option String
  pub numbers : Key → String → Option ℤ

abbrev pub reply_of : Option Value → Reply Value
reply_of none = missing
reply_of (some v) = found v

pub reply_found : (o : Option Value) (v : Value) → reply_of o ≡ found v → o ≡ some v
reply_found none v e = cc
reply_found (some w) v e = cc

pub reply_missing : (o : Option Value) → reply_of o ≡ missing → o ≡ none
reply_missing none e = refl
reply_missing (some w) e = cc

pub all_members : (held xs : List String) → some held ≡ some xs → xs ≡ held
all_members held xs e = cc

pub never_fails : (secs : ℕ) → false ≡ true → secs ≡ 0
never_fails secs e = cc

-- INCR answers 1 here, as on a counter that has expired.
abbrev pub in_memory : Valkey
in_memory = record {
  State = Cells;
  holds = λ k s. s.value k;
  members = λ k s. s.items k;
  get = λ k s. reply_of (s.value k);
  smembers = λ k s. some (s.items k);
  ttl = λ k s. (100, false);
  incr = λ j s. (s, some 1);
  pipe = λ cs s. (
    record {
      value = λ k. replay k cs (s.value k);
      items = λ k. replay_set k cs (s.items k);
      texts = λ k f. if deletes k cs then none else s.texts k f;
      numbers = λ k f. if deletes k cs then none else s.numbers k f;
    },
    true,
  );
  get_found = λ k s v e. reply_found (s.value k) v e;
  get_missing = λ k s e. reply_missing (s.value k) e;
  smembers_all = λ k s xs e. all_members (s.items k) xs e;
  ttl_error = λ k s e. never_fails 100 e;
  incr_holds = λ j k s e. refl;
  incr_members = λ j k s. refl;
  pipe_holds = λ cs k s e. refl;
  pipe_members = λ cs k s e x. refl;
}

abbrev pub empty_cells : Cells
empty_cells = record {
  value = λ k. none;
  items = λ k. [];
  texts = λ k f. none;
  numbers = λ k f. none;
}

pub no_value : (v : Value) (o : Option Value) → failed ≡ found v → o ≡ some v
no_value v o e = cc

abbrev pub IsMissing : Reply Value → Type 0
IsMissing r = r ≡ missing

pub no_absence : (o : Option Value) → IsMissing failed → o ≡ none
no_absence o e = cc

-- The server when its GET command fails.
abbrev pub without_get : Valkey
without_get = record in_memory {
  get = λ k s. failed;
  get_found = λ k s v e. no_value v (s.value k) e;
  get_missing = λ k s e. no_absence (s.value k) e;
}
