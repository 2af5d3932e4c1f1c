-- ===== src/Frag/Sorting.antt =====
-- Sorting pieces by their offsets, and what a reordering of the pieces leaves alone.
use ws_pi.Base.{◌<◌, ◌≡◌, ◌≢◌, refl, sym, ◌∙◌, subst, arith, List, [], ◌∷◌, All}
use ws_pi.Frag.{Piece, insert, sort}
use mathlib.Core.List.{Permᴰ}
use mathlib.Core.Path.{ap₂, subst₂}

abbrev pub Distinct : List Piece → Type 0
Distinct [] = Unit {0}
Distinct (p ∷ ps) = All (λ q. p.0 ≢ q.0) ps × Distinct ps

abbrev pub Increasing : List Piece → Type 0
Increasing [] = Unit {0}
Increasing (p ∷ ps) = All (λ q. p.0 < q.0) ps × Increasing ps

pub All-mono {ℓ κ} :
    {A : Type ℓ} (P Q : A → Type κ) → ((a : A) → P a → Q a) → (xs : List A) → All P xs → All Q xs
All-mono P Q f [] h = tt
All-mono P Q f (x ∷ xs) h = (f x h.0, All-mono P Q f xs h.1)

pub All-perm {ℓ κ} :
    {A : Type ℓ} (P : A → Type κ) {xs ys : List A} → Permᴰ xs ys → All P xs → All P ys
All-perm P Permᴰ.nil h = tt
All-perm P (Permᴰ.cons e p) h = (subst P e h.0, All-perm P p h.1)
All-perm P (Permᴰ.swap e f) h = (subst P f h.1.0, (subst P e h.0, h.1.1))
All-perm P (Permᴰ.trans p q) h = All-perm P q (All-perm P p h)

pub Increasing-Distinct : (ps : List Piece) → Increasing ps → Distinct ps
Increasing-Distinct [] h = tt
Increasing-Distinct (p ∷ ps) h = (
  All-mono (λ q. p.0 < q.0) (λ q. p.0 ≢ q.0) (λ q k. omega arith) ps h.0,
  Increasing-Distinct ps h.1,
)

Distinct-perm : {ps qs : List Piece} → Permᴰ ps qs → Distinct ps → Distinct qs
Distinct-perm Permᴰ.nil h = tt
Distinct-perm (Permᴰ.cons {a = a} {b = b} {l₂ = l₂} e p) h =
    (subst (λ c. All (λ q. c.0 ≢ q.0) l₂) e (All-perm (λ q. a.0 ≢ q.0) p h.0), Distinct-perm p h.1)
Distinct-perm (Permᴰ.swap {a = a} {b = b} {l = l} e f) h =
    subst₂ (λ x y. Distinct (x ∷ y ∷ l)) f e ((((λ k. h.0.0 (sym k)), h.1.0), (h.0.1, h.1.1)))
Distinct-perm (Permᴰ.trans p q) h = Distinct-perm q (Distinct-perm p h)

insert_comm :
    (p q : Piece) (ps : List Piece) → p.0 ≢ q.0 → insert p (insert q ps) ≡ insert q (insert p ps)
unfolding insert
insert_comm p q [] h = ground arith
insert_comm p q (r ∷ rs) h = ground (arith, insert_comm p q rs h)

-- Pieces with distinct offsets sort to one list, in whatever order they come.
pub sort-perm : {ps qs : List Piece} → Permᴰ ps qs → Distinct ps → sort ps ≡ sort qs
unfolding sort
sort-perm Permᴰ.nil d = refl
sort-perm (Permᴰ.cons e p) d = ap₂ insert e (sort-perm p d.1)
sort-perm (Permᴰ.swap {a = a} {b = b} {l = l} e f) d =
    insert_comm a b (sort l) d.0.0 ∙ ap₂ (λ x y. insert x (insert y (sort l))) f e
sort-perm (Permᴰ.trans p q) d = sort-perm p d ∙ sort-perm q (Distinct-perm p d)

insert_front : (p : Piece) (ps : List Piece) → All (λ q. p.0 < q.0) ps → insert p ps ≡ p ∷ ps
unfolding insert
insert_front p [] h = refl
insert_front p (q ∷ qs) h = ground arith

-- Pieces in increasing order of offset are sorted.
pub sort_of_Increasing : (ps : List Piece) → Increasing ps → sort ps ≡ ps
unfolding sort
sort_of_Increasing [] h = refl
sort_of_Increasing (p ∷ ps) h = rw (sort_of_Increasing ps h.1) (insert_front p ps h.0)
