-- ===== src/Insert/Rendering.antt =====
-- The text of the rows of an `INSERT` of source/database.cpp.
use juggernaut_server.Base.{◌≡◌, refl, ap, sym, ◌∙◌, List, [], ◌∷◌, ◌++◌, append-nil, append_assoc}
use juggernaut_server.Insert.{Text, add_values}

-- `(a),(b),(c)`.
abbrev pub in_parentheses : Text → Text
in_parentheses row = b'(' ∷ (row ++ b')' ∷ [])

abbrev pub render_rest : List Text → Text
render_rest [] = []
render_rest (row ∷ rows) = b',' ∷ (in_parentheses row ++ render_rest rows)

abbrev pub render : List Text → Text
render [] = []
render (row ∷ rows) = in_parentheses row ++ render_rest rows

abbrev pub concat : List (List Text) → List Text
concat [] = []
concat (b ∷ bs) = b ++ concat bs

pub render_rest-snoc :
    (rows : List Text) (row : Text)
    → render_rest (rows ++ row ∷ []) ≡ render_rest rows ++ (b',' ∷ in_parentheses row)
render_rest-snoc [] row = ap (λ s. b',' ∷ s) (append-nil (in_parentheses row))
render_rest-snoc (r ∷ rows) row =
    ap (λ s. b',' ∷ (in_parentheses r ++ s)) (render_rest-snoc rows row)
    ∙ ap (λ s. b',' ∷ s)
        (sym (append_assoc (in_parentheses r) (render_rest rows) (b',' ∷ in_parentheses row)))

pub add_values-render :
    (rows : List Text) (row : Text) → add_values row (render rows) ≡ render (rows ++ row ∷ [])
unfolding add_values
add_values-render [] row = sym (append-nil (in_parentheses row))
add_values-render (r ∷ rows) row =
    append_assoc (in_parentheses r) (render_rest rows) (b',' ∷ in_parentheses row)
    ∙ ap (λ s. in_parentheses r ++ s) (sym (render_rest-snoc rows row))

pub concat-append : (xs ys : List (List Text)) → concat (xs ++ ys) ≡ concat xs ++ concat ys
concat-append [] ys = refl
concat-append (x ∷ xs) ys =
    ap (λ s. x ++ s) (concat-append xs ys) ∙ sym (append_assoc x (concat xs) (concat ys))
