-- ===== src/Customiser/Types.antt =====
-- The rows of packages/db/prisma/schema.prisma that apps/api/src/embed.ts reads and writes. Ids are
-- texts, as they also stand in scenes and in object keys; a date is its milliseconds.
use personalisation_kings.Base.{ℕ, Bool, Option, List, String}
use personalisation_kings.Connector.Types.{ConnectionStatus, SessionStatus}
use personalisation_kings.Scene.Types.{SceneGraph}
use personalisation_kings.Scene.Config.{LayerRule}

abbrev pub Date : Type 0
Date = ℕ

pub record Store : Type 0 where
  pub id : String
  pub merchant_id : String
  pub url : String
  pub connection_status : ConnectionStatus

-- `designVersion`, with its scene and its configuration of the schemas' shape.
pub record DesignVersion : Type 0 where
  pub id : String
  pub scene_graph : SceneGraph
  pub customiser_config : Option (List LayerRule)

pub record Design : Type 0 where
  pub current_version_id : Option String
  pub current_version : Option DesignVersion

-- `ProductMapping` with its store and its design.
pub record ProductMapping : Type 0 where
  pub store_id : String
  pub external_product_id : String
  pub external_variant_id : Option String
  pub external_variant_key : String
  pub design_id : String
  pub active : Bool
  pub store : Store
  pub design : Design

-- What `verifyEmbedToken` gives for a token that it accepts.
pub record EmbedToken : Type 0 where
  pub store_id : String
  pub allowed_origin : String
  pub external_product_id : String
  pub external_variant_id : Option String
  pub design_id : String
  pub design_version_id : String

pub record Context : Type 0 where
  pub token : EmbedToken
  pub store : Store
  pub mapping : ProductMapping
  pub design : Design
  pub design_version : DesignVersion

pub data AssetKind : Type 0 where
  font artwork clipart upload mockup other : AssetKind

-- `AssetVersion` with the kind of its asset.
pub record AssetVersion : Type 0 where
  pub id : String
  pub merchant_id : String
  pub kind : AssetKind
  pub object_key : String
  pub content_type : String
  pub byte_size : ℕ
  pub is_accepted : Bool
  pub deleted_at : Option Date

pub record CustomisationSession : Type 0 where
  pub id : String
  pub merchant_id : String
  pub store_id : String
  pub design_id : String
  pub external_product_id : String
  pub external_variant_id : Option String
  pub customer_inputs : String
  pub render_spec : SceneGraph
  pub status : SessionStatus
  pub expires_at : Option Date

pub record CustomisationRevision : Type 0 where
  pub id : String
  pub merchant_id : String
  pub session_id : String
  pub design_version_id : String
  pub revision : ℕ
  pub opaque_reference : String
  pub customer_inputs : String
  pub render_spec : SceneGraph

pub record LineItem : Type 0 where
  pub id : String
  pub customisation_revision_id : Option String

pub record Db : Type 0 where
  pub assets : List AssetVersion
  pub sessions : List CustomisationSession
  pub revisions : List CustomisationRevision
  pub line_items : List LineItem
