-- ===== src/BinarySearch/Init.antt =====
-- `binary_search_t::init` copies a vector (util/binary_search.hpp).
use parallel_enum.Base.{
  ℕ, suc, ◌≡◌, refl, ap, sym, ◌∙◌, List, [], ◌∷◌, ◌++◌, length, set, replicate, arith, append_assoc,
  length-append,
}
use parallel_enum.BinarySearch.{init, init_loop}

set-append :
    (front back : List ℕ) (v : ℕ) → set (front ++ back) (length front) v ≡ front ++ set back 0 v
set-append [] back v = refl
set-append (x ∷ front) back v = ap (λ xs. x ∷ xs) (set-append front back v)

init_loop-append :
    (v done : List ℕ) → init_loop (done ++ replicate (length v) 0) (length done) v ≡ done ++ v
unfolding init_loop
init_loop-append [] done = refl
init_loop-append (x ∷ v) done =
    let zeros : List ℕ = replicate (length v) 0 in
    let grown : length (done ++ x ∷ []) ≡ suc (length done) =
      omega (arith, length-append {0} done (x ∷ [])) in
    ap (λ xs. init_loop xs (suc (length done)) v)
      (set-append done (0 ∷ zeros) x ∙ sym (append_assoc done (x ∷ []) zeros))
    ∙ ap (λ k. init_loop ((done ++ x ∷ []) ++ zeros) k v) (sym grown)
    ∙ init_loop-append v (done ++ x ∷ [])
    ∙ append_assoc done (x ∷ []) v

pub init_lem : (v : List ℕ) → init v ≡ v
unfolding init
init_lem v = init_loop-append v []
