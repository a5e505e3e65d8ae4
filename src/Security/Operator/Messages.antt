-- ===== src/Security/Operator/Messages.antt =====
-- `sanitize_operator_message`: what it hides, and how long its result can be.
use sight_stalker.Prelude.{
  ℕ, ◌≤◌, ◌+◌, ◌≡◌, refl, ap, ◌∙◌, sym, false, Option, none, some, ◌∷◌, [], ◌++◌, Text, codes,
  arith, Bool-cases, inl, inr, if◌then◌else◌, length, length-append, length-take-le, take, ltb,
  has_char,
}
use mathlib.Core.Option
use sight_stalker.Security.Redaction.{TextLibrary, redact_string}
use sight_stalker.Security.Operator.{
  is_control, strip_control_chars, redact_embedded_urls, cap, message_max_chars,
  sanitize_operator_message,
}
use sight_stalker.Security.Operator.Urls.{
  url, hidden_url, redact_embedded_urls-url, redact_embedded_urls-append, has_char-url,
}

strip_control_chars-append :
    (a b : Text) → strip_control_chars (a ++ b) ≡ strip_control_chars a ++ strip_control_chars b
unfolding strip_control_chars
strip_control_chars-append [] b = refl
strip_control_chars-append (c ∷ a) b = elim (Bool-cases (is_control c)) [
  | inl control ↦ rw control (strip_control_chars-append a b)
  | inr plain ↦ rw plain (ap (λ text. c ∷ text) (strip_control_chars-append a b))
]

has_char-strip_control_chars :
    (d : ℕ) (text : Text) → has_char d text ≡ false → has_char d (strip_control_chars text) ≡ false
unfolding strip_control_chars has_char
has_char-strip_control_chars d [] h = refl
has_char-strip_control_chars d (c ∷ text) h = ground (arith, has_char-strip_control_chars d text)

strip_control_chars-url :
    (scheme user host : Text)
    → strip_control_chars (url scheme user host)
      ≡ url (strip_control_chars scheme) (strip_control_chars user) (strip_control_chars host)
unfolding strip_control_chars
strip_control_chars-url scheme user host =
    strip_control_chars-append scheme _
    ∙ ap (λ rest. strip_control_chars scheme ++ (codes "://" ++ rest))
        (strip_control_chars-append user (b'@' ∷ host))

-- A word with what precedes it, up to a space, if anything does, and what follows it, from a space on.
abbrev pub led : Option Text → Text → Text
led none text = text
led (some before) text = before ++ (b' ' ∷ text)

abbrev pub trailed : Text → Option Text → Text
trailed word none = word
trailed word (some after) = word ++ (b' ' ∷ after)

abbrev pub around : Option Text → Text → Option Text → Text
around before word after = led before (trailed word after)

-- A step that works on the texts between spaces one by one, and leaves the spaces.
record IsWordwise (f : Text → Text) : Type 0 where
  at : (a b : Text) → f (a ++ (b' ' ∷ b)) ≡ f a ++ (b' ' ∷ f b)

IsWordwise-trailed :
    (f : Text → Text)
    → IsWordwise f
    → (word : Text) (after : Option Text)
    → f (trailed word after) ≡ trailed (f word) (Option.map f after)
IsWordwise-trailed f h word none = refl
IsWordwise-trailed f h word (some after) = h.at word after

IsWordwise-around :
    (f : Text → Text)
    → IsWordwise f
    → (before : Option Text) (word : Text) (after : Option Text)
    → f (around before word after) ≡ around (Option.map f before) (f word) (Option.map f after)
IsWordwise-around f h none word after = IsWordwise-trailed f h word after
IsWordwise-around f h (some before) word after =
    h.at before (trailed word after)
    ∙ ap (λ rest. f before ++ (b' ' ∷ rest)) (IsWordwise-trailed f h word after)

abbrev clean : Text → Text
clean text = redact_embedded_urls (strip_control_chars text)

clean-IsWordwise : IsWordwise clean
unfolding strip_control_chars
clean-IsWordwise = record {
  at = λ a b.
      ap redact_embedded_urls (strip_control_chars-append a (b' ' ∷ b))
      ∙ redact_embedded_urls-append (strip_control_chars a) (strip_control_chars b);
}

-- What the URL step makes of a message that holds a URL with credentials.
clean-around :
    (before : Option Text) (scheme user host : Text) (after : Option Text)
    → has_char b' ' scheme ≡ false
    → has_char b' ' user ≡ false
    → has_char b' ' host ≡ false
    → has_char b':' scheme ≡ false
    → has_char b'@' host ≡ false
    → clean (around before (url scheme user host) after)
      ≡ around
          (Option.map clean before)
          (hidden_url (strip_control_chars scheme) (strip_control_chars host))
          (Option.map clean after)
clean-around before scheme user host after s u h colon at =
    IsWordwise-around clean clean-IsWordwise before (url scheme user host) after
    ∙ ap (λ word. around (Option.map clean before) word (Option.map clean after))
        (ap redact_embedded_urls (strip_control_chars-url scheme user host)
          ∙ redact_embedded_urls-url (strip_control_chars scheme) (strip_control_chars user)
              (strip_control_chars host)
              (has_char-url _ _ _ (has_char-strip_control_chars b' ' scheme s)
                (has_char-strip_control_chars b' ' user u)
                (has_char-strip_control_chars b' ' host h))
              (has_char-strip_control_chars b':' scheme colon)
              (has_char-strip_control_chars b'@' host at))

length-cut : (n : ℕ) (text : Text) → length (take n text ++ codes "...") ≤ n + 3
length-cut n text = omega (arith, length-append (take n text) (codes "..."), length-take-le n text)

length-keep :
    (n : ℕ) (text cut : Text)
    → length cut ≤ n + 3
    → length (if ltb n (length text) then cut else text) ≤ n + 3
length-keep n text cut h = ground arith

length-cap : (text : Text) → length (cap text) ≤ 2003
unfolding cap
length-cap text = length-keep message_max_chars text _ (length-cut message_max_chars text)

module _ (lib : TextLibrary) where
  -- Two messages that differ only in the credentials of one URL are shown alike, whatever the pattern
  -- substitutions do, if the URL stands at the start of the message or after a space, and at its end or
  -- before a space; if neither credential text holds a space, the scheme neither a space nor `:`, and
  -- the host, which is all that follows the credentials, neither a space nor `@`.
  pub sanitize_operator_message-hides :
      (before : Option Text) (scheme user user' host : Text) (after : Option Text)
      → has_char b' ' scheme ≡ false
      → has_char b' ' user ≡ false
      → has_char b' ' user' ≡ false
      → has_char b' ' host ≡ false
      → has_char b':' scheme ≡ false
      → has_char b'@' host ≡ false
      → sanitize_operator_message lib (around before (url scheme user host) after)
        ≡ sanitize_operator_message lib (around before (url scheme user' host) after)
  unfolding sanitize_operator_message
  sanitize_operator_message-hides before scheme user user' host after s u u' h colon at =
      ap (λ text. cap (redact_string lib (lib.sub_operator_kv (lib.sub_auth_scheme text))))
        (clean-around before scheme user host after s u h colon at
          ∙ sym (clean-around before scheme user' host after s u' h colon at))

  -- A message shown has at most 2003 characters: 2000 and an ellipsis.
  pub length-sanitize_operator_message :
      (value : Text) → length (sanitize_operator_message lib value) ≤ 2003
  unfolding sanitize_operator_message
  length-sanitize_operator_message value = length-cap (
      redact_string lib (
        lib.sub_operator_kv
          (lib.sub_auth_scheme (redact_embedded_urls (strip_control_chars value)))))
