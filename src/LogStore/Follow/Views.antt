-- ===== src/LogStore/Follow/Views.antt =====
-- The lines that the rows of web/src/hooks/useLogStream.ts's polls are shown as.
use marshal_pm.Base.{
  ℕ, zero, suc, ◌≡◌, refl, ap, inl, inr, Bool-cases, List, [], ◌∷◌, ◌++◌, length, take, drop,
}
use marshal_pm.LogStore.{StoredLine, matches, view_of}
use marshal_pm.LogStore.Rows.{numbered}
use marshal_pm.LogStore.Follow.{Query, rows_of, views_of}

pub views-append :
    (q : Query) → (xs ys : List StoredLine) → views_of q (xs ++ ys) ≡ views_of q xs ++ views_of q ys
views-append q [] ys = refl
views-append q (x ∷ xs) ys = ap (view_of q.atoi x ∷◌) (views-append q xs ys)

pub views-take :
    (q : Query) → (n : ℕ) (xs : List StoredLine) → views_of q (take n xs) ≡ take n (views_of q xs)
views-take q zero xs = refl
views-take q (suc n) [] = refl
views-take q (suc n) (x ∷ xs) = ap (view_of q.atoi x ∷◌) (views-take q n xs)

pub views-drop :
    (q : Query) → (n : ℕ) (xs : List StoredLine) → views_of q (drop n xs) ≡ drop n (views_of q xs)
views-drop q zero xs = refl
views-drop q (suc n) [] = refl
views-drop q (suc n) (x ∷ xs) = views-drop q n xs

pub length-views : (q : Query) → (xs : List StoredLine) → length (views_of q xs) ≡ length xs
length-views q [] = refl
length-views q (x ∷ xs) = ap suc (length-views q xs)

-- The row id of a line shows nowhere.
pub views-numbered :
    (q : Query)
    → (k : ℕ) (lines : List StoredLine)
    → views_of q (rows_of q (numbered k lines)) ≡ views_of q (rows_of q lines)
unfolding numbered view_of
views-numbered q k [] = refl
views-numbered q k (line ∷ lines) =
    elim (Bool-cases (matches q.like (q.label ∷ q.labels) q.filter q.text line)) [
      | inl kept ↦ rw kept (ap (view_of q.atoi line ∷◌) (views-numbered q (suc k) lines))
      | inr left ↦ rw left (views-numbered q (suc k) lines)
    ]
