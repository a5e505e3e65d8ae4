-- ===== src/Persistence/Rows/Metadata.antt =====
-- What a run row holds of the metadata and of the start URL.
use sight_stalker.Prelude.{
  ◌≡◌, refl, sym, ap, ◌∙◌, ℕ, [], ◌∷◌, has_char, nat_eq, arith, Bool, true, false, ◌||◌, Option,
  none, some, Text, ok, raised, ◌>>=◌, bind-ok, ok_injective, codes, if◌then◌else◌,
}
use mathlib.Core.Path.{subst}
use mathlib.Core.List.{Memᴰ}
use sight_stalker.Errors.{Exc}
use sight_stalker.Models.Json.{
  Json, Items, Fields, null, boolean, natural, number, string, array, object, secret, other, nil,
  cons, end, field,
}
use sight_stalker.Models.Records.{RunRecord}
use sight_stalker.Security.Redaction.{
  TextLibrary, redacted, is_sensitive_key, is_sensitive_header, redact_mapping,
}
use sight_stalker.Security.Mapping.{
  IsRedacted, AreItemsRedacted, AreFieldsRedacted, redact_mapping-redacts,
}
use sight_stalker.Persistence.Stored.{
  JsonLibrary, canonical_json, decode_json_object, decode-canonical, canonical_encodable,
  insert_field, sort_value, sort_items, sort_fields,
}
use sight_stalker.Models.Identifiers.{run_prefix, session_prefix}
use sight_stalker.Persistence.Rows.{RunValues, require}
use sight_stalker.Persistence.Rows.Write.{
  UrlParts, is_given, has_credentials, no_credentials, reject_url_credentials, run_to_row_values,
}

module _ (lib : TextLibrary) where
  insert_field-AreFieldsRedacted :
      (k : Text) (v : Json) (d : Fields)
      → ((is_sensitive_key lib k || is_sensitive_header lib k) ≡ true → v ≡ string redacted)
      → IsRedacted lib v
      → AreFieldsRedacted lib d
      → AreFieldsRedacted lib (insert_field k v d)
  unfolding insert_field AreFieldsRedacted
  insert_field-AreFieldsRedacted k v end hidden inside h = (hidden, inside, tt)
  insert_field-AreFieldsRedacted k v (field j w d) hidden inside (hidden', inside', h) =
      placed _ (hidden, inside, (hidden', inside', h))
        (hidden', inside', insert_field-AreFieldsRedacted k v d hidden inside h)
    where
      placed :
          (b : Bool)
          → AreFieldsRedacted lib (field k v (field j w d))
          → AreFieldsRedacted lib (field j w (insert_field k v d))
          → AreFieldsRedacted lib
              (if b then field k v (field j w d) else field j w (insert_field k v d))
      placed true x y = x
      placed false x y = y

  mutual
    unfolding IsRedacted sort_value

    sort_value-IsRedacted : (v : Json) → IsRedacted lib v → IsRedacted lib (sort_value v)
    sort_value-IsRedacted (secret v) h = h
    sort_value-IsRedacted (object d) h = sort_fields-AreFieldsRedacted d h
    sort_value-IsRedacted (array items) h = sort_items-AreItemsRedacted items h
    sort_value-IsRedacted (string v) h = tt
    sort_value-IsRedacted null h = tt
    sort_value-IsRedacted (boolean b) h = tt
    sort_value-IsRedacted (natural n) h = tt
    sort_value-IsRedacted (number n) h = tt
    sort_value-IsRedacted (other v) h = tt

    sort_items-AreItemsRedacted :
        (items : Items) → AreItemsRedacted lib items → AreItemsRedacted lib (sort_items items)
    sort_items-AreItemsRedacted nil h = tt
    sort_items-AreItemsRedacted (cons v items) (h, k) =
        (sort_value-IsRedacted v h, sort_items-AreItemsRedacted items k)

    pub sort_fields-AreFieldsRedacted :
        (d : Fields) → AreFieldsRedacted lib d → AreFieldsRedacted lib (sort_fields d)
    sort_fields-AreFieldsRedacted end h = tt
    sort_fields-AreFieldsRedacted (field k v d) (hidden, inside, h) =
        insert_field-AreFieldsRedacted k (sort_value v) (sort_fields d)
          (λ e. ap sort_value (hidden e)) (sort_value-IsRedacted v inside)
          (sort_fields-AreFieldsRedacted d h)

  or_left : (a b : Bool) → (a || b) ≡ false → a ≡ false
  or_left a b h = ground arith

  or_right : (a b : Bool) → (a || b) ≡ false → b ≡ false
  or_right a b h = ground arith

  unless-ok :
      {B : Type 0} (c : Bool) (a b : B) (e : Exc)
      → (if c then raised e else ok a) ≡ ok b
      → c ≡ false × a ≡ b
  unless-ok true a b e h = (cc, cc)
  unless-ok false a b e h = (refl, cc)

  -- No text, or an empty one.
  abbrev pub IsBlank : Option Text → Type 0
  IsBlank none = Unit
  IsBlank (some []) = Unit
  IsBlank (some (c ∷ text)) = ⊥

  -- As `urlsplit` sees the URL, user name and password are missing or empty, and no `@` stands before
  -- the host.
  pub record IsAnonymous (parts : UrlParts) : Type 0 where
    pub username : IsBlank parts.username
    pub password : IsBlank parts.password
    pub netloc : ¬ Memᴰ b'@' parts.netloc

  is_given-false : (o : Option Text) → is_given o ≡ false → IsBlank o
  unfolding is_given
  is_given-false none h = tt
  is_given-false (some []) h = tt
  is_given-false (some (c ∷ text)) h = cc

  has_char-absent : (c : ℕ) (text : Text) → has_char c text ≡ false → ¬ Memᴰ c text
  unfolding has_char
  has_char-absent c [] h m = elim m [ ]
  has_char-absent c (d ∷ text) h (Memᴰ.head e) = ground arith
  has_char-absent c (d ∷ text) h (Memᴰ.tail m) =
      has_char-absent c text (or_right (nat_eq c d) (has_char c text) h) m

  has_credentials-false : (parts : UrlParts) → has_credentials parts ≡ false → IsAnonymous parts
  unfolding has_credentials
  has_credentials-false parts h =
      let given = is_given parts.username in
      let rest = or_right given _ h in
      record {
        username = is_given-false parts.username (or_left given _ h);
        password = is_given-false parts.password (or_left (is_given parts.password) _ rest);
        netloc = has_char-absent b'@' parts.netloc (or_right (is_given parts.password) _ rest);
      }

  -- The start URL has no credentials.
  abbrev pub HasNoCredentials : (Text → Option UrlParts) → Option Text → Type 0
  HasNoCredentials urlsplit none = Unit
  HasNoCredentials urlsplit (some url) =
      (parts : UrlParts) × urlsplit url ≡ some parts × IsAnonymous parts

  no_credentials-ok :
      (urlsplit : Text → Option UrlParts) (url : Text) (o : Option UrlParts) (stored : Option Text)
      → urlsplit url ≡ o
      → no_credentials url o ≡ ok stored
      → HasNoCredentials urlsplit stored
  unfolding no_credentials
  no_credentials-ok urlsplit url none stored e h = cc
  no_credentials-ok urlsplit url (some parts) stored e h =
      let (free, same) = unless-ok (has_credentials parts) (some url) stored _ h in
      subst (HasNoCredentials urlsplit) same (parts, e, has_credentials-false parts free)

  reject-ok :
      (urlsplit : Text → Option UrlParts) (given stored : Option Text)
      → reject_url_credentials urlsplit given ≡ ok stored
      → HasNoCredentials urlsplit stored
  unfolding reject_url_credentials
  reject-ok urlsplit none stored h =
      let same : none ≡ stored = cc in subst (HasNoCredentials urlsplit) same tt
  reject-ok urlsplit (some url) stored h =
      no_credentials-ok urlsplit url (urlsplit url) stored refl h

  module _ (json : JsonLibrary) where
    -- Of what is stored of a run, the start URL has neither user name nor password nor an `@` before its host, as `urlsplit`
    -- sees it, and the metadata, when they are decoded, have no
    -- secret value and the marker under every sensitive key.
    pub run_to_row_values-redacts :
        (urlsplit : Text → Option UrlParts) (run : RunRecord) (v : RunValues json)
        → run_to_row_values lib json urlsplit run ≡ ok v
        → HasNoCredentials urlsplit v.start_url
          × ((d : Fields) × decode_json_object json v.metadata_json ≡ ok d
              × AreFieldsRedacted lib d)
    unfolding run_to_row_values
    run_to_row_values-redacts urlsplit run v h =
        let (run_id, e1, h1) = bind-ok (require run_prefix run.run_id (codes "RunId")) _ v h in
        let (session_id, e2, h2) =
          bind-ok (require session_prefix run.session_id (codes "SessionId")) _ v h1 in
        let (start_url, e3, h3) = bind-ok (reject_url_credentials urlsplit run.start_url) _ v h2 in
        let (metadata_json, e4, h4) =
          bind-ok (canonical_json json (object (redact_mapping lib run.metadata))) _ v h3 in
        let same = ok_injective _ v h4 in
        let encodable =
          canonical_encodable json (redact_mapping lib run.metadata) metadata_json e4 in
        let decoded =
          ap (λ o. o >>= decode_json_object json) (sym e4)
          ∙ decode-canonical json (redact_mapping lib run.metadata) encodable in
        (
          subst (HasNoCredentials urlsplit) (ap (λ r. r.start_url) same)
              (reject-ok urlsplit run.start_url start_url e3),
          (
            sort_fields (redact_mapping lib run.metadata),
            ap (decode_json_object json) (sym (ap (λ r. r.metadata_json) same)) ∙ decoded,
            sort_fields-AreFieldsRedacted (redact_mapping lib run.metadata)
                (redact_mapping-redacts lib run.metadata),
          ),
        )
