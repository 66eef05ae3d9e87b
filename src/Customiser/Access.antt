-- ===== src/Customiser/Access.antt =====
-- Which mapping serves a product, and when a request may use a design: `chooseProductMapping`,
-- `findProductMapping` and `resolveCustomiserContext` of apps/api/src/embed.ts.
use personalisation_kings.Base.{
  Bool, ◌&&◌, ◌||◌, Option, none, some, List, String, str_eq, opt_str_eq, find_first, find_many,
  if◌then◌else◌,
}
use personalisation_kings.Connector.Types.{is_connected}
use personalisation_kings.Customiser.Types.{ProductMapping, EmbedToken, Context}

-- The requested variant, if it is truthy: `externalVariantId ? … : …`.
unfoldable pub requested_variant : Option String → Option String
requested_variant none = none
requested_variant (some s) = if str_eq s "" then none else some s

abbrev pub first_of_variant : Option String → List ProductMapping → Option ProductMapping
first_of_variant variant =
    find_first (λ (m : ProductMapping). opt_str_eq m.external_variant_id variant)

abbrev or_else : Option ProductMapping → Option ProductMapping → Option ProductMapping
or_else none m = m
or_else (some m) n = some m

unfoldable pub choose_product_mapping : List ProductMapping → Option String → Option ProductMapping
unfolding requested_variant
choose_product_mapping mappings external_variant_id =
    elim (or_else (first_of_variant (requested_variant external_variant_id) mappings)
      (first_of_variant none mappings)) [
        | none ↦ none
        | some selected ↦ if selected.active then some selected else none
      ]

-- `externalVariantKey: { in: … }`
unfoldable pub has_variant_key : Option String → ProductMapping → Bool
has_variant_key none m = str_eq m.external_variant_key ""
has_variant_key (some v) m = str_eq m.external_variant_key v || str_eq m.external_variant_key ""

unfoldable pub find_product_mapping :
    String → String → Option String → List ProductMapping → Option ProductMapping
unfolding has_variant_key requested_variant
find_product_mapping store_id external_product_id external_variant_id table =
    choose_product_mapping
      (find_many
        (λ (m : ProductMapping).
          str_eq m.store_id store_id
          && (str_eq m.external_product_id external_product_id
              && has_variant_key (requested_variant external_variant_id) m))
        table)
      external_variant_id

-- The errors of `resolveCustomiserContext`.
pub data AccessError : Type 0 where
  customiser_origin_not_configured invalid_origin embed_secret_not_configured : AccessError
  invalid_embed_token mapping_changed : AccessError

pub data Access : Type 0 where
  granted : Context → Access
  refused : AccessError → Access

-- `storeOrigin` is the URL parser's, and `verify_embed_token` checks a signature with a secret.
module _ (store_origin : String → Option String)
    (verify_embed_token : String → String → Option EmbedToken) where
  abbrev pub is_current : EmbedToken → ProductMapping → Bool
  is_current token m =
      is_connected m.store.connection_status
      && (str_eq m.design_id token.design_id
          && (opt_str_eq m.design.current_version_id (some token.design_version_id)
              && opt_str_eq (store_origin m.store.url) (some token.allowed_origin)))

  -- A verified token against the mapping that serves its product now.
  unfoldable pub resolve_token : EmbedToken → List ProductMapping → Access
  resolve_token token table =
      elim (find_product_mapping token.store_id token.external_product_id token.external_variant_id
        table) [
          | none ↦ refused mapping_changed
          | some m ↦ elim (m.design.current_version) [
            | none ↦ refused mapping_changed
            | some version ↦
                if is_current token m
                then granted (record {
                  token = token;
                  store = m.store;
                  mapping = m;
                  design = m.design;
                  design_version = version;
                })
                else refused mapping_changed
          ]
        ]

  -- `customiser_origin` and `secret` are what the configuration gives, `origin` the request's header.
  unfoldable pub resolve_customiser_context :
      Option String → Option String → Option String → String → List ProductMapping → Access
  resolve_customiser_context none secret origin raw_token table =
      refused customiser_origin_not_configured
  resolve_customiser_context (some allowed) secret origin raw_token table =
      if opt_str_eq origin (some allowed)
      then elim secret [
        | none ↦ refused embed_secret_not_configured
        | some key ↦ elim (verify_embed_token raw_token key) [
          | none ↦ refused invalid_embed_token
          | some token ↦ resolve_token token table
        ]
      ]
      else refused invalid_origin
