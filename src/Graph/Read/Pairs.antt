-- ===== src/Graph/Read/Pairs.antt =====
-- The loop of `ReadEdgeList` adds every edge of the file (util/graph.hpp).
use parallel_enum.Base.{
  ℕ, zero, suc, ◌<◌, ◌≡◌, refl, ap, ◌∙◌, Bool, true, false, not, ◌||◌, ◌&&◌, List, [], ◌∷◌, none,
  some, length, get_or, if◌then◌else◌, ◌==◌, arith, mem, Bool-cases, inl, inr,
}
use parallel_enum.Graph.Read.{
  eof, fast_read, Reading, done, out_of_bounds, add_edge, from_base, read_pairs,
}
use parallel_enum.Graph.Read.Links.{
  Holds, flat, node, linked, are_nodes, fast_read-Holds, fast_read-end, is_node-fits,
  from_base-node, node-lt, add_edge-mem, or_two,
}

-- A round of the loop that reads two numbers.
read_pairs-round :
    (directed one_based : Bool) (w fuel : ℕ) (file file' file'' : List ℕ) (x y : ℕ)
    (rows : List (List ℕ))
    → fast_read w file ≡ (x, file')
    → fast_read w file' ≡ (y, file'')
    → (x == eof w) ≡ false
    → (y == eof w) ≡ false
    → read_pairs directed one_based w (suc fuel) file rows ≡ (
        if x == y
        then read_pairs directed one_based w fuel file'' rows
        else (elim (add_edge directed rows (from_base one_based w x) (from_base one_based w y)) [
          | none ↦ out_of_bounds
          | some r ↦ read_pairs directed one_based w fuel file'' r
        ]))
unfolding read_pairs
read_pairs-round directed one_based w fuel file file' file'' x y rows ra rb ax ay =
    let step : ℕ × List ℕ → ℕ × List ℕ → Reading (List (List ℕ)) = λ a b.
      if a.0 == eof w || b.0 == eof w
      then done rows
      else if a.0 == b.0
      then read_pairs directed one_based w fuel b.1 rows
      else (elim (add_edge directed rows (from_base one_based w a.0) (from_base one_based w b.0)) [
        | none ↦ out_of_bounds
        | some r ↦ read_pairs directed one_based w fuel b.1 r
      ]) in
    ap (λ a. step a (fast_read w a.1)) ra ∙ ap (step (x, file')) rb ∙ rw (ax, ay) refl

-- The loop adds the edges of the file.
pub read_pairs-linked :
    (directed one_based : Bool) (w n fuel : ℕ) (es : List (ℕ × ℕ)) (file : List ℕ)
    (rows : List (List ℕ))
    → Holds (flat es) file
    → are_nodes one_based n es ≡ true
    → n < eof w
    → length rows ≡ n
    → length es < fuel
    → (r : List (List ℕ)) × (read_pairs directed one_based w fuel file rows ≡ done r)
      × (length r ≡ n)
      × ((a b : ℕ)
          → mem b (get_or r a []) ≡ (linked directed one_based es a b || mem b (get_or rows a [])))
unfolding read_pairs
read_pairs-linked directed one_based w n zero es file rows h nodes fits sized lt =
    absurd (omega arith)
read_pairs-linked directed one_based w n (suc fuel) [] file rows h nodes fits sized lt =
    (rows, rw (fast_read-end w file h) refl, sized, λ a b. refl)
read_pairs-linked directed one_based w n (suc fuel) (e ∷ es) file rows h nodes fits sized lt =
    let hx = is_node-fits one_based w n e.0 fits (ground arith) in
    let hy = is_node-fits one_based w n e.1 fits (ground arith) in
    let ra = fast_read-Holds w e.0 (e.1 ∷ flat es) file h hx in
    let rb = fast_read-Holds w e.1 (flat es) h.0 h.2 hy in
    let ax : (e.0 == eof w) ≡ false = ground arith in
    let ay : (e.1 == eof w) ≡ false = ground arith in
    let round =
      read_pairs-round directed one_based w fuel file h.0 h.2.0 e.0 e.1 rows ra rb ax ay in
    elim (Bool-cases (e.0 == e.1)) [
      | inl same ↦
          let (r, ends, sized', mems) =
            read_pairs-linked directed one_based w n fuel es h.2.0 rows h.2.2 (ground arith) fits
              sized (omega arith) in
          (r, round ∙ rw same ends, sized', λ a b. mems a b ∙ rw same refl)
      | inr other ↦
          let x = node one_based e.0 in
          let y = node one_based e.1 in
          let lx : x < n = node-lt one_based n e.0 (ground arith) in
          let ly : y < n = node-lt one_based n e.1 (ground arith) in
          let (rows', added, sized', here) =
            add_edge-mem directed rows x y (omega (arith, sized)) (omega (arith, sized)) in
          let (r, ends, sized_r, mems) =
            read_pairs-linked directed one_based w n fuel es h.2.0 rows' h.2.2 (ground arith) fits
              (sized' ∙ sized) (omega arith) in
          (
            r,
            round
                ∙ rw
                    (
                      other,
                      from_base-node one_based w n e.0 fits (ground arith),
                      from_base-node one_based w n e.1 fits (ground arith),
                      added,
                    )
                    ends,
            sized_r,
            λ a b.
                mems a b
                ∙ ap (λ z. linked directed one_based es a b || z) (here a b)
                ∙ rw other (
                    or_two (a == x && b == y) (not directed && a == y && b == x)
                      (linked directed one_based es a b) (mem b (get_or rows a []))),
          )
    ]
