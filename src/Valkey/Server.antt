-- ===== src/Valkey/Server.antt =====
-- The interface of a Valkey server.
use schlass.Base.{
  ℕ, Bool, true, false, ◌||◌, ◌≡◌, Option, none, some, List, [], ◌∷◌, String, ◌==◌, contains,
  if◌then◌else◌,
}
use schlass.Valkey.Keys.{Key, Value, same_key}

-- A reply to a read: a value, redis.Nil, or another error.
pub data Reply {ℓ} (A : Type ℓ) : Type ℓ where
  found : A → Reply A
  missing : Reply A
  failed : Reply A

-- SET with a time to live in seconds, SET with KEEPTTL, DEL, SADD, SREM, EXPIRE.
pub data Command : Type 0 where
  set : Key → Value → ℕ → Command
  set_keep_ttl : Key → Value → Command
  del : Key → Command
  sadd : Key → String → Command
  srem : Key → String → Command
  expire : Key → ℕ → Command

abbrev pub without : String → List String → List String
without x [] = []
without x (y ∷ ys) = let kept = without x ys in if y == x then kept else y ∷ kept

-- What a command makes of the value, and of the set, at a key.
abbrev pub after : Key → Command → Option Value → Option Value
after k (set j v secs) o = if same_key j k then some v else o
after k (set_keep_ttl j v) o = if same_key j k then some v else o
after k (del j) o = if same_key j k then none else o
after k (sadd j x) o = o
after k (srem j x) o = o
after k (expire j secs) o = o

abbrev pub set_after : Key → Command → List String → List String
set_after k (set j v secs) xs = xs
set_after k (set_keep_ttl j v) xs = xs
set_after k (del j) xs = if same_key j k then [] else xs
set_after k (sadd j x) xs = if same_key j k then x ∷ xs else xs
set_after k (srem j x) xs = if same_key j k then without x xs else xs
set_after k (expire j secs) xs = xs

abbrev pub replay : Key → List Command → Option Value → Option Value
replay k [] o = o
replay k (c ∷ cs) o = replay k cs (after k c o)

-- Whether a DEL of the key is among the commands.
abbrev pub deletes : Key → List Command → Bool
deletes k [] = false
deletes k (del j ∷ cs) = same_key j k || deletes k cs
deletes k (c ∷ cs) = deletes k cs

abbrev pub replay_set : Key → List Command → List String → List String
replay_set k [] xs = xs
replay_set k (c ∷ cs) xs = replay_set k cs (set_after k c xs)

pub record Valkey : Type 1 where
  pub State : Type 0
  -- What the server holds at the moment: the value at a key, and the members of a set.
  pub holds : Key → State → Option Value
  pub members : Key → State → List String
  -- GET, SMEMBERS and TTL. The seconds of TTL are 0 where go-redis gives no positive duration; the
  -- flag says that there was an error.
  pub get : Key → State → Reply Value
  pub smembers : Key → State → Option (List String)
  pub ttl : Key → State → ℕ × Bool
  -- INCR, and a pipeline: the flag says that Exec returned no error.
  pub incr : Key → State → State × Option ℕ
  pub pipe : List Command → State → State × Bool
  pub get_found : (k : Key) (s : State) (v : Value) → get k s ≡ found v → holds k s ≡ some v
  pub get_missing : (k : Key) (s : State) → get k s ≡ missing → holds k s ≡ none
  pub smembers_all :
      (k : Key) (s : State) (xs : List String) → smembers k s ≡ some xs → xs ≡ members k s
  pub ttl_error : (k : Key) (s : State) → (ttl k s).1 ≡ true → (ttl k s).0 ≡ 0
  pub incr_holds : (j k : Key) (s : State) → same_key j k ≡ false → holds k (incr j s).0 ≡ holds k s
  pub incr_members : (j k : Key) (s : State) → members k (incr j s).0 ≡ members k s
  -- A pipeline that succeeds has carried out its commands in order.
  pub pipe_holds :
      (cs : List Command) (k : Key) (s : State)
      → (pipe cs s).1 ≡ true
      → holds k (pipe cs s).0 ≡ replay k cs (holds k s)
  pub pipe_members :
      (cs : List Command) (k : Key) (s : State)
      → (pipe cs s).1 ≡ true
      → (x : String)
      → contains (members k (pipe cs s).0) x ≡ contains (replay_set k cs (members k s)) x
