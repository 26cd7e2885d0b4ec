-- ===== src/Serialize.antt =====
-- The codecs of util/serialize.hpp. The overloads of `Serialize` and `Deserialize` for a type are
-- one record. `Deserialize` reads at a pointer, here the rest of the words, and overwrites a value
-- that exists: it takes this value. A read past the words is `none`. Words do not wrap when a size
-- is written. A `shared_ptr` or `unique_ptr` is an Option: what it shares is not modelled.
pub mod RoundTrip
pub mod Nodes
use parallel_enum.Base.{
  ℕ, zero, suc, ◌%◌, ◌^◌, Bool, true, false, List, [], ◌∷◌, ◌++◌, Option, none, some, ◌==◌, length,
  if◌then◌else◌, ◌>>=◌,
}

pub record Codec (A : Type 0) : Type 0 where
  -- A value of `T()`.
  pub default : A
  pub serialize : A → List ℕ → List ℕ
  pub deserialize : List ℕ → A → Option (A × List ℕ)

-- An unsigned integer of `w` bits, at most the width of a word.
pub read_integral : ℕ → List ℕ → ℕ → Option (ℕ × List ℕ)
read_integral w [] out = none
read_integral w (x ∷ words) out = some (x % 2 ^ w, words)

abbrev pub integral : ℕ → Codec ℕ
integral w = record {
  default = 0;
  serialize = λ x out. out ++ x ∷ [];
  deserialize = read_integral w;
}

module _ {A : Type 0} (c : Codec A) where
  pub write_all : List A → List ℕ → List ℕ
  write_all [] out = out
  write_all (t ∷ ts) out = write_all ts (c.serialize t out)

  -- `vector::resize`
  pub resize : ℕ → List A → List A
  resize zero ts = []
  resize (suc n) [] = c.default ∷ resize n []
  resize (suc n) (t ∷ ts) = t ∷ resize n ts

  pub read_all : List ℕ → List A → Option (List A × List ℕ)
  read_all words [] = some ([], words)
  read_all words (t ∷ ts) = do
    (t', words') ← c.deserialize words t
    (ts', words'') ← read_all words' ts
    some (t' ∷ ts', words'')

  pub read_vector : List ℕ → List A → Option (List A × List ℕ)
  read_vector [] out = none
  read_vector (n ∷ words) out = read_all words (resize n out)

  abbrev pub vector : Codec (List A)
  vector = record {
    default = [];
    serialize = λ ts out. write_all ts (out ++ length ts ∷ []);
    deserialize = read_vector;
  }

  pub write_pointer : Option A → List ℕ → List ℕ
  write_pointer none out = out ++ 0 ∷ []
  write_pointer (some t) out = c.serialize t (out ++ 1 ∷ [])

  -- A zero leaves the pointer as it was.
  pub read_pointer : List ℕ → Option A → Option (Option A × List ℕ)
  read_pointer [] out = none
  read_pointer (zero ∷ words) out = some (out, words)
  read_pointer (suc _ ∷ words) out = do
    (t, words') ← c.deserialize words c.default
    some (some t, words')

  abbrev pub pointer : Codec (Option A)
  pointer = record { default = none; serialize = write_pointer; deserialize = read_pointer }

module _ {A B : Type 0} (c : Codec A) (d : Codec B) where
  pub read_pair : List ℕ → A × B → Option ((A × B) × List ℕ)
  read_pair words (a, b) = do
    (a', words') ← c.deserialize words a
    (b', words'') ← d.deserialize words' b
    some ((a', b'), words'')

  abbrev pub pair : Codec (A × B)
  pair = record {
    default = (c.default, d.default);
    serialize = λ (a, b) out. d.serialize b (c.serialize a out);
    deserialize = read_pair;
  }
