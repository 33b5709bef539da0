-- ===== src/TcpServer/Names.antt =====
-- The names of a server's connections tell them apart.
use libasio.Prelude.{◌≢◌, ℕ, ◌≡◌, refl, true, List, [], ◌∷◌, ◌++◌, codes, arith}
use libasio.Prelude.Decimal.{to_string-injective}
use libasio.TcpServer.{str_eq, conn_name}

pub str_eq_refl : (s : List ℕ) → str_eq s s ≡ true
unfolding str_eq
str_eq_refl [] = refl
str_eq_refl (c ∷ cs) = ground (arith, str_eq_refl cs)

pub str_eq→eq : (s t : List ℕ) → str_eq s t ≡ true → s ≡ t
unfolding str_eq
str_eq→eq [] [] h = refl
str_eq→eq [] (d ∷ ds) h = cc
str_eq→eq (c ∷ cs) [] h = cc
str_eq→eq (c ∷ cs) (d ∷ ds) h = ground (arith, str_eq→eq cs ds)

tail-eq : {c d : ℕ} {cs ds : List ℕ} → c ∷ cs ≡ d ∷ ds → cs ≡ ds
tail-eq h = cc

append-cancel_left : (p s t : List ℕ) → p ++ s ≡ p ++ t → s ≡ t
append-cancel_left [] s t h = h
append-cancel_left (c ∷ p) s t h = append-cancel_left p s t (tail-eq h)

pub conn_name-injective : (n : List ℕ) {i j : ℕ} → conn_name n i ≡ conn_name n j → i ≡ j
unfolding conn_name
conn_name-injective n {i} {j} h = to_string-injective (
    append-cancel_left (codes "#") _ _
      (append-cancel_left (codes "-conn") _ _ (append-cancel_left n _ _ h)))

-- Two connections of one server with different numbers have different names.
pub conn_names_differ : (n : List ℕ) (i j : ℕ) → i ≢ j → conn_name n i ≢ conn_name n j
conn_names_differ n i j d e = d (conn_name-injective n e)
