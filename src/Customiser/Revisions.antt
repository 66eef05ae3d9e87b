-- ===== src/Customiser/Revisions.antt =====
-- Which customisation may be resumed: `findEditableRevision`, `revisionCanResume` and
-- `isOpaqueCustomisationReference` of apps/api/src/embed.ts.
use Prim.Native.Char.{code}
use personalisation_kings.Base.{
  ℕ, zero, suc, ◌+◌, Bool, true, false, not, ◌&&◌, ◌||◌, ◌==◌, Option, none, some, List, [], ◌∷◌,
  String, leb, ltb, any, str_eq, opt_str_eq, find_first, find_many, if◌then◌else◌,
}
use personalisation_kings.Connector.Types.{SessionStatus}
use personalisation_kings.Customiser.Types.{
  Date, Store, EmbedToken, CustomisationSession, CustomisationRevision, LineItem, Db,
}

-- A letter in either case, as the flag `i` reads it.
abbrev is_letter : ℕ → ℕ → Bool
is_letter l c = c == l || c + 32 == l

-- `[1-5]` and the like.
abbrev is_digit_of : ℕ → ℕ → ℕ → Bool
is_digit_of low high c = leb low c && leb c high

abbrev is_hex : ℕ → Bool
is_hex c = is_digit_of b'0' b'9' c || (is_digit_of b'a' b'f' c || is_digit_of b'A' b'F' c)

abbrev repeated : ℕ → (ℕ → Bool) → List (ℕ → Bool) → List (ℕ → Bool)
repeated zero p rest = rest
repeated (suc n) p rest = p ∷ repeated n p rest

-- /^pk_[0-9a-f]{8}-[0-9a-f]{4}-[1-5][0-9a-f]{3}-[89ab][0-9a-f]{3}-[0-9a-f]{12}$/i
abbrev reference_pattern : List (ℕ → Bool)
reference_pattern =
    is_letter b'p'
    ∷ is_letter b'k'
    ∷ (λ c. c == b'_')
    ∷ repeated 8 is_hex (
        is_dash
        ∷ repeated 4 is_hex (
            is_dash
            ∷ is_digit_of b'1' b'5'
            ∷ repeated 3 is_hex (
                is_dash
                ∷ (λ c. is_digit_of b'8' b'9' c || (is_letter b'a' c || is_letter b'b' c))
                ∷ repeated 3 is_hex (is_dash ∷ repeated 12 is_hex []))))
  where
    is_dash : ℕ → Bool
    is_dash c = c == b'-'

matches_pattern : List (ℕ → Bool) → String → Bool
matches_pattern [] String.[] = true
matches_pattern [] (String.◌∷◌ c s) = false
matches_pattern (p ∷ ps) String.[] = false
matches_pattern (p ∷ ps) (String.◌∷◌ c s) = p (code c) && matches_pattern ps s

unfoldable pub is_opaque_customisation_reference : String → Bool
unfolding matches_pattern
is_opaque_customisation_reference = matches_pattern reference_pattern

-- `orderBy: { revision: "desc" }, take: 1`
unfoldable pub latest_revision : List CustomisationRevision → Option CustomisationRevision
latest_revision [] = none
latest_revision (r ∷ rs) = elim (latest_revision rs) [
  | none ↦ some r
  | some q ↦ if ltb r.revision q.revision then some q else some r
]

abbrev pub revisions_of : String → List CustomisationRevision → List CustomisationRevision
revisions_of session_id = find_many (λ (r : CustomisationRevision). str_eq r.session_id session_id)

abbrev pub is_latest : CustomisationRevision → Option CustomisationRevision → Bool
is_latest r none = false
is_latest r (some q) = str_eq q.id r.id

abbrev pub is_committed : SessionStatus → Bool
is_committed SessionStatus.committed = true
is_committed _ = false

abbrev pub is_unexpired : Date → Option Date → Bool
is_unexpired now none = true
is_unexpired now (some at) = ltb now at

abbrev pub has_line_items : String → List LineItem → Bool
has_line_items revision_id =
    any (λ (l : LineItem). opt_str_eq l.customisation_revision_id (some revision_id))

-- `revisionCanResume`, on a revision with its session and the tables of their relations.
unfoldable pub revision_can_resume :
    EmbedToken → Store → Date → CustomisationRevision → CustomisationSession → Db → Bool
unfolding latest_revision
revision_can_resume token store now r s db =
    str_eq r.merchant_id store.merchant_id
    && (str_eq s.store_id store.id
        && (str_eq s.design_id token.design_id
            && (str_eq r.design_version_id token.design_version_id
                && (str_eq s.external_product_id token.external_product_id
                    && (opt_str_eq s.external_variant_id token.external_variant_id
                        && (is_committed s.status
                            && (is_unexpired now s.expires_at
                                && (is_latest r (latest_revision (revisions_of s.id db.revisions))
                                    && not (has_line_items r.id db.line_items)))))))))

abbrev pub find_reference : String → List CustomisationRevision → Option CustomisationRevision
find_reference reference =
    find_first (λ (r : CustomisationRevision). str_eq r.opaque_reference reference)

abbrev pub find_session : String → List CustomisationSession → Option CustomisationSession
find_session id = find_first (λ (s : CustomisationSession). str_eq s.id id)

-- `findEditableRevision`. A revision has a session, by a foreign key.
unfoldable pub find_editable_revision :
    EmbedToken → Store → Date → String → Db → Option CustomisationRevision
unfolding revision_can_resume is_opaque_customisation_reference
find_editable_revision token store now reference db =
    if is_opaque_customisation_reference reference
    then elim (find_reference reference db.revisions) [
      | none ↦ none
      | some r ↦ elim (find_session r.session_id db.sessions) [
        | none ↦ none
        | some s ↦ if revision_can_resume token store now r s db then some r else none
      ]
    ]
    else none
