-- ===== src/Postgres/Sql/Placeholders.antt =====
-- The placeholders of an SQL text, in order.
use velo_external_db.Base.{
  ℕ, zero, suc, ◌+◌, String, ◌≡◌, refl, sym, ap, ◌∙◌, List, [], ◌∷◌, ◌++◌, flat_map, append-nil,
  arith,
}
use velo_external_db.Postgres.Sql.{
  text, placeholder, Sql, join_sql, variables, prepare_statement_variables,
}

unfoldable pub placeholders : Sql → List ℕ
placeholders [] = []
placeholders (text s ∷ ps) = placeholders ps
placeholders (placeholder n ∷ ps) = n ∷ placeholders ps

-- `n` numbers from `from` on
unfoldable pub range : ℕ → ℕ → List ℕ
range from zero = []
range from (suc n) = from ∷ range (suc from) n

pub placeholders-append : (s t : Sql) → placeholders (s ++ t) ≡ placeholders s ++ placeholders t
unfolding placeholders
placeholders-append [] t = refl
placeholders-append (text x ∷ s) t = placeholders-append s t
placeholders-append (placeholder n ∷ s) t = ap (◌∷◌ n) (placeholders-append s t)

-- A text at the end has none.
pub placeholders-before_text :
    (s : Sql) (x : String) → placeholders (s ++ text x ∷ []) ≡ placeholders s
unfolding placeholders
placeholders-before_text s x = placeholders-append s (text x ∷ []) ∙ append-nil (placeholders s)

pub placeholders-join_sql :
    (separator : String) (ss : List Sql)
    → placeholders (join_sql separator ss) ≡ flat_map placeholders ss
unfolding placeholders
placeholders-join_sql separator [] = refl
placeholders-join_sql separator (s ∷ []) = sym (append-nil (placeholders s))
placeholders-join_sql separator (s ∷ t ∷ ts) =
    placeholders-append s (text separator ∷ join_sql separator (t ∷ ts))
    ∙ ap (λ x. placeholders s ++ x) (placeholders-join_sql separator (t ∷ ts))

pub range-add : (from m n : ℕ) → range from (m + n) ≡ range from m ++ range (from + m) n
unfolding range
range-add from zero n = ap (range from) (omega arith) ∙ ap (λ k. range k n) (omega arith)
range-add from (suc m) n =
    let step : suc m + n ≡ suc (m + n) = omega arith in
    let moved : suc from + m ≡ from + suc m = omega arith in
    ap (range from) step
    ∙ ap (◌∷◌ from) (range-add (suc from) m n ∙ ap (λ k. range (suc from) m ++ range k n) moved)

pub placeholders-variables : (n from : ℕ) → flat_map placeholders (variables from n) ≡ range from n
unfolding placeholders range
placeholders-variables zero from = refl
placeholders-variables (suc n) from = ap (◌∷◌ from) (placeholders-variables n (suc from))

pub placeholders-prepare_statement_variables :
    (n from : ℕ) → placeholders (prepare_statement_variables n from) ≡ range from n
unfolding prepare_statement_variables
placeholders-prepare_statement_variables n from =
    placeholders-join_sql ", " (variables from n) ∙ placeholders-variables n from
