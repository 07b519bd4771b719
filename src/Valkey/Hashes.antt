-- ===== src/Valkey/Hashes.antt =====
-- The commands on hashes: HSET, HGET, HGETALL and HINCRBY.
use schlass.Base.{
  ℤ, ◌+ℤ◌, or_zero, Bool, true, false, ◌&&◌, ◌≡◌, ◌⊎◌, Option, none, some, List, [], ◌∷◌, String,
  ◌==◌, if◌then◌else◌,
}
use schlass.Valkey.Keys.{Key, same_key}
use schlass.Valkey.Server.{Valkey, Reply, found, Command}

-- A value of a field: a text, or a number that HINCRBY counts.
pub data FieldValue : Type 0 where
  txt : String → FieldValue
  num : ℤ → FieldValue

-- What HSET makes of the text, and of the number, in a field.
abbrev pub put_texts : List (String × FieldValue) → String → Option String → Option String
put_texts [] f o = o
put_texts ((g, txt v) ∷ fs) f o = put_texts fs f (if g == f then some v else o)
put_texts ((g, num n) ∷ fs) f o = put_texts fs f o

abbrev pub put_numbers : List (String × FieldValue) → String → Option ℤ → Option ℤ
put_numbers [] f o = o
put_numbers ((g, txt v) ∷ fs) f o = put_numbers fs f o
put_numbers ((g, num n) ∷ fs) f o = put_numbers fs f (if g == f then some n else o)

abbrev pub or_empty : Option String → String
or_empty none = ""
or_empty (some v) = v

pub record Hashes (K : Valkey) : Type 1 where
  -- What the server holds at the moment in a field: its text, and the number that HINCRBY counts.
  pub text : Key → String → K.State → Option String
  pub number : Key → String → K.State → Option ℤ
  pub hget : Key → String → K.State → Reply String
  -- The map that HGETALL gives, with "" for a field that it does not have.
  pub hgetall : Key → K.State → Reply (String → String)
  -- The flag says that there was no error.
  pub hset : Key → List (String × FieldValue) → K.State → K.State × Bool
  pub hincr : Key → String → ℤ → K.State → K.State × Option ℤ
  pub hget_found :
      (k : Key) (f : String) (s : K.State) (v : String) → hget k f s ≡ found v → text k f s ≡ some v
  pub hgetall_found :
      (k : Key) (s : K.State) (m : String → String)
      → hgetall k s ≡ found m
      → (f : String) → m f ≡ or_empty (text k f s)
  -- HSET that succeeds writes its fields and no other key; one that fails may have been carried out.
  pub hset_text :
      (k : Key) (fs : List (String × FieldValue)) (s : K.State)
      → (hset k fs s).1 ≡ true
      → (j : Key) (f : String)
      → text j f (hset k fs s).0
        ≡ (if same_key k j then put_texts fs f (text j f s) else text j f s)
  pub hset_number :
      (k : Key) (fs : List (String × FieldValue)) (s : K.State)
      → (hset k fs s).1 ≡ true
      → (j : Key) (f : String)
      → number j f (hset k fs s).0
        ≡ (if same_key k j then put_numbers fs f (number j f s) else number j f s)
  -- HINCRBY counts from 0; one that fails may have been carried out.
  pub hincr_some :
      (k : Key) (f : String) (d : ℤ) (s : K.State) (n : ℤ)
      → (hincr k f d s).1 ≡ some n
      → (n ≡ or_zero (number k f s) +ℤ d) × (number k f (hincr k f d s).0 ≡ some n)
  pub hincr_none :
      (k : Key) (f : String) (d : ℤ) (s : K.State)
      → (hincr k f d s).1 ≡ none
      → (number k f (hincr k f d s).0 ≡ number k f s)
        ⊎ (number k f (hincr k f d s).0 ≡ some (or_zero (number k f s) +ℤ d))
  pub hincr_other :
      (k : Key) (f : String) (d : ℤ) (s : K.State) (j : Key) (g : String)
      → (same_key k j && f == g) ≡ false
      → number j g (hincr k f d s).0 ≡ number j g s
  -- The commands of a pipeline write no field of a hash: whatever became of them, a number is as it
  -- was, or gone with its hash.
  pub pipe_number :
      (cs : List Command) (k : Key) (f : String) (s : K.State)
      → (number k f (K.pipe cs s).0 ≡ number k f s) ⊎ (number k f (K.pipe cs s).0 ≡ none)
