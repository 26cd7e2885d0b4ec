-- ===== src/Graph/Read/Tests.antt =====
-- Files with graphs, and the theorems on the readers at these.
use parallel_enum.Base.{
  ℕ, ◌<◌, ◌≡◌, refl, true, false, some, Each, List, [], ◌∷◌, ◌++◌, ap, ◌∙◌, ◌*◌, ◌+◌, arith,
}
use parallel_enum.FastIo.Decimal.{ascii, read_int-value, read_int-blank, blank-is_digit}
use parallel_enum.Graph.Fast.{FastGraph}
use parallel_enum.Graph.Fast.Tests.{list_sets}
use parallel_enum.Graph.Read.{done, eof, read_olympiads_format, read_nde}
use parallel_enum.Graph.Read.Links.{Holds, flat}
use parallel_enum.Graph.Read.Formats.{IsOf, read_nde-IsOf, read_olympiads_format-IsOf}

-- Numbers of one digit, each with a blank after it.
abbrev digits : List ℕ → List ℕ
digits [] = []
digits (d ∷ ds) = [] ++ (ascii (d ∷ []) ++ 32 ∷ digits ds)

digits-Holds : (ds : List ℕ) → Each (λ d. d < 10) ds → Holds ds (digits ds)
digits-Holds [] small = read_int-blank [] tt
digits-Holds (d ∷ ds) small =
    let same : d * 1 + 0 ≡ d = omega arith in
    (
      digits ds,
      read_int-value [] d [] 32 (digits ds) tt (small.0, tt) (omega (arith, small.0)) blank-is_digit
          ∙ ap (λ n. (some n, digits ds)) same,
      digits-Holds ds small.1,
    )

-- A path of three nodes, numbered from one.
abbrev labelled_path : List ℕ
labelled_path = digits (3 ∷ 2 ∷ 7 ∷ 8 ∷ 9 ∷ 1 ∷ 2 ∷ 2 ∷ 3 ∷ [])

abbrev links : List (ℕ × ℕ)
links = (1, 2) ∷ (2, 3) ∷ []

labelled_path-Holds : Holds (3 ∷ 2 ∷ ((7 ∷ 8 ∷ 9 ∷ []) ++ flat links)) labelled_path
labelled_path-Holds = digits-Holds (3 ∷ 2 ∷ 7 ∷ 8 ∷ 9 ∷ 1 ∷ 2 ∷ 2 ∷ 3 ∷ []) (
  omega arith,
  (
    omega arith,
    (
      omega arith,
      (omega arith, (omega arith, (omega arith, (omega arith, (omega arith, (omega arith, tt)))))),
    ),
  ),
)

-- Two nodes of degree one with an edge.
abbrev nde_edge : List ℕ
nde_edge = digits (2 ∷ 0 ∷ 1 ∷ 1 ∷ 1 ∷ 0 ∷ 1 ∷ [])

nde_edge-Holds : Holds (2 ∷ (flat ((0, 1) ∷ (1, 1) ∷ []) ++ flat ((0, 1) ∷ []))) nde_edge
nde_edge-Holds = digits-Holds (2 ∷ 0 ∷ 1 ∷ 1 ∷ 1 ∷ 0 ∷ 1 ∷ []) (
  omega arith,
  (omega arith, (omega arith, (omega arith, (omega arith, (omega arith, (omega arith, tt)))))),
)

fits_in_32 : 255 < eof 32
unfolding eof
fits_in_32 = omega arith

read_olympiads_format-IsOf_example :
    (g : FastGraph list_sets ℕ) × (read_olympiads_format list_sets
        (some 32)
        32
        false
        true
        labelled_path
      ≡ done g)
    × IsOf list_sets 3 true links g
    × (g.base.labels ≡ some (7 ∷ 8 ∷ 9 ∷ []))
read_olympiads_format-IsOf_example =
    let small = fits_in_32 in
    read_olympiads_format-IsOf list_sets (some 32) true 32 3 2 (7 ∷ 8 ∷ 9 ∷ []) links labelled_path
      labelled_path-Holds (refl, (omega arith, (omega arith, (omega arith, tt)))) refl (omega arith)
      (omega arith) (omega arith)

read_nde-IsOf_example :
    (g : FastGraph list_sets ℕ) × (read_nde list_sets 32 false nde_edge ≡ done g)
    × IsOf list_sets 2 false ((0, 1) ∷ []) g
read_nde-IsOf_example =
    let small = fits_in_32 in
    read_nde-IsOf list_sets 32 2 ((0, 1) ∷ (1, 1) ∷ []) ((0, 1) ∷ []) nde_edge nde_edge-Holds refl
      ((omega arith, omega arith), ((omega arith, omega arith), tt)) refl (omega arith)
      (omega arith)
