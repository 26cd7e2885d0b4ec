-- ===== src/Serialize/Nodes/State.antt =====
-- The round trip of the search state for k-plexes (enumerable/diam2kplex.hpp).
use parallel_enum.Base.{ℕ, ◌≡◌, refl, sym, ap, ◌∙◌, List, [], ◌∷◌, ◌++◌, some, append-nil, Each}
use parallel_enum.Kplex.{Impl}
use parallel_enum.Serialize.{integral}
use parallel_enum.Serialize.RoundTrip.{
  after, IsCodec, FitsIn, Anything, integral-IsCodec, vector-IsCodec,
}
use parallel_enum.Serialize.Nodes.{sizes, bytes, write_impl, read_impl, impl_codec}

sizes-IsCodec : IsCodec sizes (Each (FitsIn 64)) (Each Anything)
sizes-IsCodec = vector-IsCodec (integral 64) (FitsIn 64) Anything (integral-IsCodec 64)

bytes-IsCodec : IsCodec bytes (Each (FitsIn 8)) (Each Anything)
bytes-IsCodec = vector-IsCodec (integral 8) (FitsIn 8) Anything (integral-IsCodec 8)

-- The words of a state, before `rest`.
words_of : Impl → List ℕ → List ℕ
words_of s rest =
    let rest₅ = sizes.serialize s.excluded [] ++ rest in
    let rest₄ = sizes.serialize s.cands [] ++ rest₅ in
    let rest₃ = sizes.serialize s.non_neighs [] ++ rest₄ in
    let rest₂ = bytes.serialize s.status [] ++ rest₃ in
    let rest₁ = bytes.serialize s.counters [] ++ rest₂ in sizes.serialize s.kplex [] ++ rest₁

write_impl-append :
    (s : Impl) (out rest : List ℕ) → write_impl s out ++ rest ≡ out ++ words_of s rest
unfolding write_impl words_of
write_impl-append s out rest =
    let size = after sizes sizes-IsCodec in
    let byte = after bytes bytes-IsCodec in
    let out₁ = sizes.serialize s.kplex out in
    let out₂ = bytes.serialize s.counters out₁ in
    let out₃ = bytes.serialize s.status out₂ in
    let out₄ = sizes.serialize s.non_neighs out₃ in
    let out₅ = sizes.serialize s.cands out₄ in
    let rest₅ = sizes.serialize s.excluded [] ++ rest in
    let rest₄ = sizes.serialize s.cands [] ++ rest₅ in
    let rest₃ = sizes.serialize s.non_neighs [] ++ rest₄ in
    let rest₂ = bytes.serialize s.status [] ++ rest₃ in
    let rest₁ = bytes.serialize s.counters [] ++ rest₂ in
    size s.excluded out₅ rest
    ∙ size s.cands out₄ rest₅
    ∙ size s.non_neighs out₃ rest₄
    ∙ byte s.status out₂ rest₃
    ∙ byte s.counters out₁ rest₂
    ∙ size s.kplex out rest₁

-- The counters and marks are bytes, and the sizes words of 64 bits.
pub record FitsState (s : Impl) : Type 0 where
  pub kplex : Each (FitsIn 64) s.kplex
  pub counters : Each (FitsIn 8) s.counters
  pub status : Each (FitsIn 8) s.status
  pub non_neighs : Each (FitsIn 64) s.non_neighs
  pub cands : Each (FitsIn 64) s.cands
  pub excluded : Each (FitsIn 64) s.excluded

pub anything : {A : Type 0} → (xs : List A) → Each Anything xs
anything [] = tt
anything (x ∷ xs) = (tt, anything xs)

size :
    (xs old rest : List ℕ)
    → Each (FitsIn 64) xs
    → sizes.deserialize (sizes.serialize xs [] ++ rest) old ≡ some (xs, rest)
size xs old rest fits = sizes-IsCodec.round_trip xs old rest fits (anything old)

byte :
    (xs old rest : List ℕ)
    → Each (FitsIn 8) xs
    → bytes.deserialize (bytes.serialize xs [] ++ rest) old ≡ some (xs, rest)
byte xs old rest fits = bytes-IsCodec.round_trip xs old rest fits (anything old)

read_impl-words_of :
    (s old : Impl) (rest : List ℕ) → FitsState s → read_impl (words_of s rest) old ≡ some (s, rest)
unfolding read_impl words_of
read_impl-words_of s old rest fits = rw (size s.kplex old.kplex _ fits.kplex) (
    rw (byte s.counters old.counters _ fits.counters) (
      rw (byte s.status old.status _ fits.status) (
        rw (size s.non_neighs old.non_neighs _ fits.non_neighs) (
          rw (size s.cands old.cands _ fits.cands)
            (rw (size s.excluded old.excluded rest fits.excluded) refl)))))

-- A state written after other words leaves these alone, and read over any state it comes back.
pub impl_codec-IsCodec : IsCodec impl_codec FitsState Anything
impl_codec-IsCodec = record {
  appends = λ s out.
      sym (append-nil (write_impl s out))
      ∙ write_impl-append s out []
      ∙ ap (λ xs. out ++ xs) (sym (write_impl-append s [] []) ∙ append-nil (write_impl s []));
  round_trip = λ s old rest fits fresh.
      ap (λ xs. read_impl xs old) (write_impl-append s [] rest)
      ∙ read_impl-words_of s old rest fits;
  default_fresh = tt;
}
