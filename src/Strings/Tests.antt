-- ===== src/Strings/Tests.antt =====
-- Tests of the string utilities, and their theorems at concrete texts.
use lp_net.Prelude.{◌≡◌, refl, arith, List, [], ◌∷◌, ◌++◌, some, false, map}
use lp_net.Text.{Str, codes, begins, find, find_at, first_that, last_that, substr, same}
use lp_net.Strings.{
  split_round, split_from, split, end_with, lower, find_case_from, find_case, trim_left, trim_right,
  cut, trim, has_key, parse_url_params,
}
use lp_net.Strings.Split.{join, split-join}
use lp_net.Strings.Ends.{end_with_lem}
use lp_net.Strings.Url.{print_param, parse_url_params-print}

splits :
    split 9 (codes "a,b,,c") (codes ",") ≡ some (codes "a" ∷ codes "b" ∷ codes "" ∷ codes "c" ∷ [])
unfolding split split_from split_round find_at find begins substr
splits = refl

trims :
    (trim (codes "  a b ") ≡ some (codes "a b"))
    × (trim_left (codes "  a ") ≡ some (codes "a "))
    × (trim_right (codes "  a ") ≡ some (codes "  a"))
    × (trim (codes "   ") ≡ some [])
unfolding trim trim_left trim_right cut first_that last_that substr
trims = (refl, refl, refl, refl)

finds_at_the_start : find_case 9 (codes "Content") (codes "cONT") 0 ≡ some (some 0)
unfolding find_case find_case_from lower
finds_at_the_start = refl

-- The text ends with the word, and the code says no.
misses_the_end : end_with (codes "a.txt") (codes ".txt") ≡ some false
unfolding begins
misses_the_end = end_with_lem (codes "a.txt") (codes ".txt")

split-join_example :
    (pieces : List Str) × (split 9 (codes "a--b") (codes "--") ≡ some pieces)
    × (join (codes "--") pieces ≡ codes "a--b")
split-join_example = split-join 9 (codes "a--b") (codes "--") (omega arith) (omega arith)

parse_url_params-print_example :
    parse_url_params 3 (
      codes "/x"
      ++ (b'?'
          ∷ join
              (b'&' ∷ [])
              (map print_param ((codes "a", codes "1") ∷ (codes "b", codes "2") ∷ []))))
    ≡ some ((codes "a", codes "1") ∷ (codes "b", codes "2") ∷ [])
unfolding first_that find begins has_key same
parse_url_params-print_example =
    parse_url_params-print 3 (codes "/x") (codes "a", codes "1") ((codes "b", codes "2") ∷ []) refl
      (refl, refl, (refl, refl, tt)) (refl, (refl, tt)) (omega arith)
