-- ===== src/Serialize/RoundTrip.antt =====
-- What is written is read back (util/serialize.hpp), codec by codec.
use parallel_enum.Base.{
  ℕ, zero, suc, ◌%◌, ◌^◌, ◌≡◌, refl, sym, ap, ◌∙◌, List, [], ◌∷◌, ◌++◌, Option, none, some, arith,
  length, Each, append_assoc, append-nil,
}
use parallel_enum.Serialize.{
  Codec, integral, read_integral, write_all, resize, read_all, read_vector, vector, write_pointer,
  read_pointer, pointer, read_pair, pair,
}

-- A value that fits, written after other words, leaves these alone; read over a value that is fresh
-- it comes back, and the words after it are left.
pub record IsCodec {A : Type 0} (c : Codec A) (Fits Fresh : A → Type 0) : Type 0 where
  pub appends : (a : A) (out : List ℕ) → c.serialize a out ≡ out ++ c.serialize a []
  pub round_trip :
      (a old : A) (rest : List ℕ)
      → Fits a
      → Fresh old
      → c.deserialize (c.serialize a [] ++ rest) old ≡ some (a, rest)
  pub default_fresh : Fresh c.default

pub after :
    {A : Type 0} {Fits Fresh : A → Type 0}
    → (c : Codec A) → IsCodec c Fits Fresh
    → (a : A) (out rest : List ℕ) → c.serialize a out ++ rest ≡ out ++ (c.serialize a [] ++ rest)
after c good a out rest =
    ap (λ xs. xs ++ rest) (good.appends a out) ∙ append_assoc out (c.serialize a []) rest

abbrev pub FitsIn : ℕ → ℕ → Type 0
FitsIn w x = x % 2 ^ w ≡ x

abbrev pub Anything : {A : Type 0} → A → Type 0
Anything a = Unit

pub integral-IsCodec : (w : ℕ) → IsCodec (integral w) (FitsIn w) Anything
unfolding read_integral
integral-IsCodec w = record {
  appends = λ x out. refl;
  round_trip = λ x old rest fits fresh. rw fits refl;
  default_fresh = tt;
}

abbrev pub Pointed : {A : Type 0} → (A → Type 0) → Option A → Type 0
Pointed Fits none = Unit
Pointed Fits (some t) = Fits t

module _ {A : Type 0} (c : Codec A) (Fits Fresh : A → Type 0) (good : IsCodec c Fits Fresh) where
  write_all-append : (ts : List A) (out : List ℕ) → write_all c ts out ≡ out ++ write_all c ts []
  unfolding write_all
  write_all-append [] out = sym (append-nil out)
  write_all-append (t ∷ ts) out =
      write_all-append ts (c.serialize t out)
      ∙ ap (λ xs. xs ++ write_all c ts []) (good.appends t out)
      ∙ append_assoc out (c.serialize t []) (write_all c ts [])
      ∙ sym (ap (λ xs. out ++ xs) (write_all-append ts (c.serialize t [])))

  fresh-resize : (n : ℕ) (ts : List A) → Each Fresh ts → Each Fresh (resize c n ts)
  unfolding resize
  fresh-resize zero ts h = tt
  fresh-resize (suc n) [] h = (good.default_fresh, fresh-resize n [] tt)
  fresh-resize (suc n) (t ∷ ts) h = (h.0, fresh-resize n ts h.1)

  length-resize : (n : ℕ) (ts : List A) → length (resize c n ts) ≡ n
  unfolding resize
  length-resize zero ts = refl
  length-resize (suc n) [] = ap suc (length-resize n [])
  length-resize (suc n) (t ∷ ts) = ap suc (length-resize n ts)

  read_all-write_all :
      (ts old : List A) (rest : List ℕ)
      → Each Fits ts
      → Each Fresh old
      → length old ≡ length ts
      → read_all c (write_all c ts [] ++ rest) old ≡ some (ts, rest)
  unfolding read_all write_all
  read_all-write_all [] [] rest fits fresh e = refl
  read_all-write_all [] (o ∷ old) rest fits fresh e = absurd (omega (arith, e))
  read_all-write_all (t ∷ ts) [] rest fits fresh e = absurd (omega (arith, e))
  read_all-write_all (t ∷ ts) (o ∷ old) rest fits fresh e =
      let tail = write_all c ts [] ++ rest in
      let start =
        ap (λ xs. xs ++ rest) (write_all-append ts (c.serialize t []))
        ∙ append_assoc (c.serialize t []) (write_all c ts []) rest in
      let first = ap (λ xs. c.deserialize xs o) start ∙ good.round_trip t o tail fits.0 fresh.0 in
      let others = read_all-write_all ts old rest fits.1 fresh.1 (omega (arith, e)) in
      rw first (rw others refl)

  pub vector-IsCodec : IsCodec (vector c) (Each Fits) (Each Fresh)
  unfolding read_vector
  vector-IsCodec = record {
    appends = λ ts out.
        let n = length ts ∷ [] in
        write_all-append ts (out ++ n)
        ∙ append_assoc out n (write_all c ts [])
        ∙ sym (ap (λ xs. out ++ xs) (write_all-append ts n));
    round_trip = λ ts old rest fits fresh.
        let n = length ts ∷ [] in
        let start =
          ap (λ xs. xs ++ rest) (write_all-append ts n) ∙ append_assoc n (write_all c ts []) rest in
        ap (λ xs. read_vector c xs old) start
        ∙ read_all-write_all ts (resize c (length ts) old) rest fits
            (fresh-resize (length ts) old fresh) (length-resize (length ts) old);
    default_fresh = tt;
  }

  -- Where a null pointer was written, the pointer that it is read over stays.
  pub read_pointer-null :
      (o old : Option A) (rest : List ℕ)
      → o ≡ none
      → read_pointer c (write_pointer c o [] ++ rest) old ≡ some (old, rest)
  unfolding write_pointer read_pointer
  read_pointer-null none old rest e = refl
  read_pointer-null (some t) old rest e = absurd (cc)

  -- A pointer is read over a null pointer only.
  pub pointer-IsCodec : IsCodec (pointer c) (Pointed Fits) (λ old. old ≡ none)
  unfolding write_pointer read_pointer
  pointer-IsCodec = record {
    appends = pointer_appends;
    round_trip = pointer_round_trip;
    default_fresh = refl;
  }
    where
      pointer_appends :
          (o : Option A) (out : List ℕ) → write_pointer c o out ≡ out ++ write_pointer c o []
      pointer_appends none out = refl
      pointer_appends (some t) out =
          good.appends t (out ++ 1 ∷ [])
          ∙ append_assoc out (1 ∷ []) (c.serialize t [])
          ∙ sym (ap (λ xs. out ++ xs) (good.appends t (1 ∷ [])))

      pointer_round_trip :
          (o old : Option A) (rest : List ℕ)
          → Pointed Fits o
          → old ≡ none
          → read_pointer c (write_pointer c o [] ++ rest) old ≡ some (o, rest)
      pointer_round_trip none old rest fits e = ap (λ x. some (x, rest)) e
      pointer_round_trip (some t) old rest fits e =
          let start = ap (λ xs. xs ++ rest) (good.appends t (1 ∷ [])) in
          let first = good.round_trip t c.default rest fits good.default_fresh in
          ap (λ xs. read_pointer c xs old) start ∙ rw first refl

module _ {A B : Type 0} (c : Codec A) (d : Codec B) (Fits Fresh : A → Type 0)
    (Fits' Fresh' : B → Type 0) (good : IsCodec c Fits Fresh) (good' : IsCodec d Fits' Fresh') where
  pub pair-IsCodec : IsCodec (pair c d) (λ p. Fits p.0 × Fits' p.1) (λ p. Fresh p.0 × Fresh' p.1)
  unfolding read_pair
  pair-IsCodec = record {
    appends = λ (a, b) out.
        good'.appends b (c.serialize a out)
        ∙ ap (λ xs. xs ++ d.serialize b []) (good.appends a out)
        ∙ append_assoc out (c.serialize a []) (d.serialize b [])
        ∙ sym (ap (λ xs. out ++ xs) (good'.appends b (c.serialize a [])));
    round_trip = λ (a, b) (a₀, b₀) rest fits fresh.
        let start =
          ap (λ xs. xs ++ rest) (good'.appends b (c.serialize a []))
          ∙ append_assoc (c.serialize a []) (d.serialize b []) rest in
        let first = good.round_trip a a₀ (d.serialize b [] ++ rest) fits.0 fresh.0 in
        let second = good'.round_trip b b₀ rest fits.1 fresh.1 in
        ap (λ xs. read_pair c d xs (a₀, b₀)) start ∙ rw first (rw second refl);
    default_fresh = (good.default_fresh, good'.default_fresh);
  }
