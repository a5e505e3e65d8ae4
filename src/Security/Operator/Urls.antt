-- ===== src/Security/Operator/Urls.antt =====
-- `_redact_embedded_urls`: what stands between `://` and the last `@` of a word does not come through.
use sight_stalker.Prelude.{
  ℕ, ◌≡◌, refl, ap, ◌∙◌, sym, false, List, [], ◌∷◌, ◌++◌, append_assoc, none, some, Text, codes,
  nat_eq, arith, Bool-cases, inl, inr, has_char,
}
use sight_stalker.Security.Redaction.{redacted}
use sight_stalker.Security.Operator.{
  push_char, split_spaces, join_spaces, partition_scheme, last_cut, after_last_at, hide_userinfo,
  redact_parts, redact_token, map_words, redact_embedded_urls,
}

after_last_at-host : (host : Text) → has_char b'@' host ≡ false → after_last_at host ≡ none
unfolding after_last_at has_char
after_last_at-host [] h = refl
after_last_at-host (c ∷ host) h = ground (arith, after_last_at-host host)

after_last_at-append :
    (user host : Text)
    → has_char b'@' host ≡ false
    → after_last_at (user ++ (b'@' ∷ host)) ≡ some host
unfolding after_last_at
after_last_at-append [] host h = ap (last_cut b'@' host) (after_last_at-host host h)
after_last_at-append (c ∷ user) host h =
    ap (last_cut c (user ++ (b'@' ∷ host))) (after_last_at-append user host h)

-- A scheme with no colon does not hold the separator.
partition_scheme-append :
    (scheme rest : Text)
    → has_char b':' scheme ≡ false
    → partition_scheme (scheme ++ (codes "://" ++ rest)) ≡ some (scheme, rest)
unfolding partition_scheme has_char
partition_scheme-append [] rest h = refl
partition_scheme-append (c ∷ scheme) rest h = ground (arith, partition_scheme-append scheme rest)

abbrev pub url : Text → Text → Text → Text
url scheme user host = scheme ++ (codes "://" ++ (user ++ (b'@' ∷ host)))

abbrev pub hidden_url : Text → Text → Text
hidden_url scheme host = scheme ++ (codes "://" ++ (redacted ++ (codes "@" ++ host)))

redact_token-url :
    (scheme user host : Text)
    → has_char b':' scheme ≡ false
    → has_char b'@' host ≡ false
    → redact_token (url scheme user host) ≡ hidden_url scheme host
unfolding redact_token
redact_token-url scheme user host s h =
    ap (redact_parts (url scheme user host))
      (partition_scheme-append scheme (user ++ (b'@' ∷ host)) s)
    ∙ ap (hide_userinfo (url scheme user host) scheme) (after_last_at-append user host h)

abbrev pub IsNonempty : List Text → Type 0
IsNonempty [] = ⊥
IsNonempty (word ∷ words) = Unit

push_char-IsNonempty : (c : ℕ) (words : List Text) → IsNonempty (push_char c words)
unfolding push_char
push_char-IsNonempty c [] = tt
push_char-IsNonempty c (word ∷ words) = tt

split_spaces-IsNonempty : (text : Text) → IsNonempty (split_spaces text)
unfolding split_spaces
split_spaces-IsNonempty [] = tt
split_spaces-IsNonempty (c ∷ text) = elim (Bool-cases (nat_eq c b' ')) [
  | inl space ↦ rw space tt
  | inr other ↦ rw other (push_char-IsNonempty c (split_spaces text))
]

push_char-append :
    (c : ℕ) (words more : List Text)
    → IsNonempty words
    → push_char c (words ++ more) ≡ push_char c words ++ more
unfolding push_char
push_char-append c [] more h = absurd h
push_char-append c (word ∷ words) more h = refl

split_spaces-append :
    (a b : Text) → split_spaces (a ++ (b' ' ∷ b)) ≡ split_spaces a ++ split_spaces b
unfolding split_spaces
split_spaces-append [] b = refl
split_spaces-append (c ∷ a) b = elim (Bool-cases (nat_eq c b' ')) [
  | inl space ↦ rw space (ap (λ words. [] ∷ words) (split_spaces-append a b))
  | inr other ↦ rw other (
      ap (push_char c) (split_spaces-append a b)
      ∙ push_char-append c (split_spaces a) (split_spaces b) (split_spaces-IsNonempty a))
]

split_spaces-word : (word : Text) → has_char b' ' word ≡ false → split_spaces word ≡ word ∷ []
unfolding split_spaces has_char
split_spaces-word [] h = refl
split_spaces-word (c ∷ word) h = ground (arith, split_spaces-word word)

map_words-append :
    (f : Text → Text) (xs ys : List Text)
    → map_words f (xs ++ ys) ≡ map_words f xs ++ map_words f ys
unfolding map_words
map_words-append f [] ys = refl
map_words-append f (x ∷ xs) ys = ap (λ words. f x ∷ words) (map_words-append f xs ys)

map_words-IsNonempty :
    (f : Text → Text) (xs : List Text) → IsNonempty xs → IsNonempty (map_words f xs)
unfolding map_words
map_words-IsNonempty f [] h = h
map_words-IsNonempty f (x ∷ xs) h = tt

join_spaces-append :
    (xs ys : List Text)
    → IsNonempty xs
    → IsNonempty ys
    → join_spaces (xs ++ ys) ≡ join_spaces xs ++ (b' ' ∷ join_spaces ys)
unfolding join_spaces
join_spaces-append [] ys h k = absurd h
join_spaces-append (x ∷ []) [] h k = absurd k
join_spaces-append (x ∷ []) (y ∷ ys) h k = refl
join_spaces-append (x ∷ next ∷ xs) ys h k =
    rw (join_spaces-append (next ∷ xs) ys tt k)
      (sym (append_assoc x (b' ' ∷ join_spaces (next ∷ xs)) _))

-- Words are sanitized one by one.
pub redact_embedded_urls-append :
    (a b : Text)
    → redact_embedded_urls (a ++ (b' ' ∷ b))
      ≡ redact_embedded_urls a ++ (b' ' ∷ redact_embedded_urls b)
unfolding redact_embedded_urls
redact_embedded_urls-append a b =
    ap (λ words. join_spaces (map_words redact_token words)) (split_spaces-append a b)
    ∙ ap join_spaces (map_words-append redact_token (split_spaces a) (split_spaces b))
    ∙ join_spaces-append _ _ (map_words-IsNonempty redact_token _ (split_spaces-IsNonempty a))
        (map_words-IsNonempty redact_token _ (split_spaces-IsNonempty b))

redact_embedded_urls-word :
    (word : Text) → has_char b' ' word ≡ false → redact_embedded_urls word ≡ redact_token word
unfolding redact_embedded_urls
redact_embedded_urls-word word h =
    ap (λ words. join_spaces (map_words redact_token words)) (split_spaces-word word h)

has_char-append :
    (c : ℕ) (a b : Text) → has_char c a ≡ false → has_char c b ≡ false → has_char c (a ++ b) ≡ false
unfolding has_char
has_char-append c [] b h k = k
has_char-append c (d ∷ a) b h k = ground (arith, has_char-append c a b)

pub has_char-url :
    (scheme user host : Text)
    → has_char b' ' scheme ≡ false
    → has_char b' ' user ≡ false
    → has_char b' ' host ≡ false
    → has_char b' ' (url scheme user host) ≡ false
unfolding has_char
has_char-url scheme user host s u h = has_char-append b' ' scheme _ s (
    has_char-append b' ' (codes "://") (user ++ (b'@' ∷ host)) refl
      (has_char-append b' ' user (b'@' ∷ host) u h))

-- Of a URL with credentials `<redacted>` stands in the place of all that precedes the last `@`.
pub redact_embedded_urls-url :
    (scheme user host : Text)
    → has_char b' ' (url scheme user host) ≡ false
    → has_char b':' scheme ≡ false
    → has_char b'@' host ≡ false
    → redact_embedded_urls (url scheme user host) ≡ hidden_url scheme host
redact_embedded_urls-url scheme user host spaceless s h =
    redact_embedded_urls-word (url scheme user host) spaceless
    ∙ redact_token-url scheme user host s h
