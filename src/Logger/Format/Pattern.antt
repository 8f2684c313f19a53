-- ===== src/Logger/Format/Pattern.antt =====
-- `LogFormatter::init` cuts its pattern at the dollar signs.
use lp_net.Prelude.{
  ℕ, suc, ◌+◌, ◌≡◌, refl, sym, ap, ap₂, ◌∙◌, arith, List, [], ◌∷◌, ◌++◌, Option, none, some, false,
  Bool-cases, inl, inr, ◌==◌, ltb, if◌then◌else◌, ◌>>=◌, length, load, take, drop, length-append,
  append-nil, append_assoc, take-append_length, drop-append_length,
}
use lp_net.Text.{Str, substr}
use lp_net.Logger.Format.{Token, parse_pat_token, id_token, push_token, scan, last_token, tokens_of}

-- A text between two dollar signs is a token, unless it is empty; the text behind the last one is an
-- error if it is empty.
unfoldable pub emit : Str → Option (List Token)
emit [] = some []
emit (c ∷ s) = parse_pat_token (c ∷ s) >>= λ t. some (t ∷ [])

unfoldable pub emit_last : Str → Option (List Token)
emit_last [] = some (([], [], false) ∷ [])
emit_last (c ∷ s) = parse_pat_token (c ∷ s) >>= λ t. some (t ∷ [])

-- The tokens of the current text and the rest of the pattern, by one pass over it.
unfoldable pub tokens_from : Str → Str → Option (List Token)
tokens_from cur [] = emit_last cur
tokens_from cur (c ∷ s) =
    let after = tokens_from [] s in
    let longer = tokens_from (cur ++ c ∷ []) s in
    if c == id_token then (emit cur >>= λ ts. after >>= λ us. some (ts ++ us)) else longer

with : List Token → Option (List Token) → Option (List Token)
with vec o = o >>= λ ts. some (vec ++ ts)

cut_out : (pre cur rest : Str) → substr (pre ++ (cur ++ rest)) (length pre) (length cur) ≡ some cur
unfolding substr
cut_out pre cur rest =
    ap (λ b. if b then none else some (take (length cur) (drop (length pre) all))) inside
    ∙ ap (λ t. some (take (length cur) t)) (drop-append_length pre (cur ++ rest))
    ∙ ap some (take-append_length cur rest)
  where
    all : Str
    all = pre ++ (cur ++ rest)

    inside : ltb (length all) (length pre) ≡ false
    inside = ground (arith, length-append pre (cur ++ rest))

positive : (n : ℕ) → (suc n == 0) ≡ false
positive n = ground arith

push_with :
    (vec : List Token) (o : Option Token)
    → (o >>= λ t. some (vec ++ t ∷ [])) ≡ with vec (o >>= λ t. some (t ∷ []))
unfolding with
push_with vec none = refl
push_with vec (some t) = refl

with-with :
    (vec ts : List Token) (o : Option (List Token))
    → with (vec ++ ts) o ≡ with vec (o >>= λ us. some (ts ++ us))
unfolding with
with-with vec ts none = refl
with-with vec ts (some us) = ap some (append_assoc vec ts us)

-- A round that emits tokens and goes on.
glue {ℓ} :
    {A : Type ℓ} (vec : List Token) (o after : Option (List Token)) (f : List Token → Option A)
    (g : A → Option (List Token))
    → ((v : List Token) → (f v >>= g) ≡ with v after)
    → ((with vec o >>= f) >>= g) ≡ with vec (o >>= λ ts. after >>= λ us. some (ts ++ us))
unfolding with
glue vec none after f g h = refl
glue vec (some ts) after f g h = h (vec ++ ts) ∙ with-with vec ts after

push_token_lem :
    (pre cur rest : Str) (vec : List Token)
    → push_token (pre ++ (cur ++ rest)) (length pre) (length cur) vec ≡ with vec (emit cur)
unfolding push_token emit with
push_token_lem pre [] rest vec = ap some (sym (append-nil vec))
push_token_lem pre (c ∷ cur) rest vec =
    rw (cut_out pre (c ∷ cur) rest, positive (length cur))
      (push_with vec (parse_pat_token (c ∷ cur)))

last_token_lem :
    (pre cur : Str) (vec : List Token)
    → last_token (pre ++ (cur ++ [])) (vec, length pre, length cur) ≡ with vec (emit_last cur)
unfolding last_token push_token emit_last with
last_token_lem pre [] vec = refl
last_token_lem pre (c ∷ cur) vec =
    rw (cut_out pre (c ∷ cur) [], positive (length cur)) (push_with vec (parse_pat_token (c ∷ cur)))

load_at :
    (pre cur rest : Str) (c : ℕ)
    → load (pre ++ (cur ++ (c ∷ rest))) (length pre + length cur) ≡ some c
load_at (x ∷ pre) cur rest c =
    ap (load (x ∷ (pre ++ (cur ++ (c ∷ rest))))) {y = suc (length pre + length cur)} (omega arith)
    ∙ load_at pre cur rest c
load_at [] (x ∷ cur) rest c =
    ap (load (x ∷ (cur ++ (c ∷ rest)))) {y = suc (0 + length cur)} (omega arith)
    ∙ load_at [] cur rest c
load_at [] [] rest c = refl

scan_lem :
    (rest pre cur : Str) (vec : List Token) (pattern : Str) (start len i : ℕ)
    → pattern ≡ pre ++ (cur ++ rest)
    → start ≡ length pre
    → len ≡ length cur
    → i ≡ length pre + length cur
    → (scan pattern vec start len i (length rest) >>= last_token pattern)
      ≡ with vec (tokens_from cur rest)
unfolding scan tokens_from
scan_lem [] pre cur vec pattern start len i ep es el ei =
    rw (ep, es, el) (last_token_lem pre cur vec)
scan_lem (c ∷ rest) pre cur vec pattern start len i ep es el ei =
    elim (Bool-cases (c == id_token)) [
      | inl dollar ↦
          rw (here, dollar)
            (ap
                (λ o.
                  (o >>= λ v. scan pattern v (i + 1) 0 (i + 1) (length rest))
                  >>= last_token pattern)
                pushed
              ∙ glue vec (emit cur) (tokens_from [] rest)
                  (λ v. scan pattern v (i + 1) 0 (i + 1) (length rest)) (last_token pattern)
                  (λ v.
                    scan_lem rest (pre ++ (cur ++ c ∷ [])) [] v pattern (i + 1) 0 (i + 1) next
                      (omega (arith, behind)) refl (omega (arith, behind))))
      | inr other ↦
          rw (here, other)
            (scan_lem rest pre (cur ++ c ∷ []) vec pattern start (len + 1) (i + 1)
              (ep ∙ ap (λ t. pre ++ t) (sym (append_assoc cur (c ∷ []) rest))) es
              (omega (arith, length-append cur (c ∷ [])))
              (omega (arith, length-append cur (c ∷ []))))
    ]
  where
    here : load pattern i ≡ some c
    here = ap₂ load ep ei ∙ load_at pre cur rest c

    pushed : push_token pattern start len vec ≡ with vec (emit cur)
    pushed = rw (ep, es, el) (push_token_lem pre cur (c ∷ rest) vec)

    next : pattern ≡ (pre ++ (cur ++ c ∷ [])) ++ rest
    next =
        ep
        ∙ ap (λ t. pre ++ t) (sym (append_assoc cur (c ∷ []) rest))
        ∙ sym (append_assoc pre (cur ++ c ∷ []) rest)

    behind : length (pre ++ (cur ++ c ∷ [])) ≡ i + 1
    behind = omega (arith, length-append pre (cur ++ c ∷ []), length-append cur (c ∷ []), ei)

with-nil : (o : Option (List Token)) → with [] o ≡ o
unfolding with
with-nil none = refl
with-nil (some ts) = refl

-- The loop of `init`, which remembers positions, finds the tokens that one pass over the pattern cuts
-- out: the texts between dollar signs that are not empty, and the text behind the last dollar sign.
pub tokens_of-eq-tokens_from : (pattern : Str) → tokens_of pattern ≡ tokens_from [] pattern
unfolding tokens_of
tokens_of-eq-tokens_from pattern =
    scan_lem pattern [] [] [] pattern 0 0 0 refl refl refl (omega arith)
    ∙ with-nil (tokens_from [] pattern)
