-- ===== src/SysEventbus/Envelope.antt =====
-- apps/sys_eventbus/envelope.py: an event as a flat dict of texts and back.
use drf_enterprise_informati.Prelude.{
  String, ◌≡◌, ◌≢◌, Option, none, some, List, [], ◌∷◌, arith, ◌==◌, if◌then◌else◌, Result, ok, err,
  ◌>>=◌, or_none, or_empty, or_none-or_empty,
}

-- `json.dumps` and `json.loads`; `none` is a JSONDecodeError.
pub record Json : Type 1 where
  pub Value : Type 0
  pub dumps : Value → String
  pub loads : String → Option Value

abbrev pub Fields : Type 0
Fields = List (String × String)

pub data FieldError : Type 0 where
  key_error : String → FieldError
  json_error : FieldError

-- `fields[key]`
unfoldable pub field_of : Fields → String → Result FieldError String
field_of [] key = err (key_error key)
field_of ((k, v) ∷ rest) key = if k == key then ok v else field_of rest key

module _ (json : Json) where
  open json use {Value, dumps, loads}

  pub record EventEnvelope : Type 0 where
    pub type : String
    pub payload : Value
    pub tenant_id : Option String
    pub actor_id : Option String
    pub id : String
    pub published_at : String

  unfoldable pub to_redis_fields : EventEnvelope → Fields
  to_redis_fields e =
      ("id", e.id)
      ∷ ("type", e.type)
      ∷ ("tenant_id", or_empty e.tenant_id)
      ∷ ("actor_id", or_empty e.actor_id)
      ∷ ("payload", dumps e.payload)
      ∷ ("published_at", e.published_at)
      ∷ []

  pub loaded : String → Result FieldError Value
  loaded text = elim (loads text) [ none ↦ err json_error | some v ↦ ok v ]

  loaded_lem : (text : String) (v : Value) → loads text ≡ some v → loaded text ≡ ok v
  unfolding loaded
  loaded_lem text v h = ground arith

  unfoldable pub from_redis_fields : Fields → Result FieldError EventEnvelope
  from_redis_fields fields = do
    id ← field_of fields "id"
    type ← field_of fields "type"
    tenant_id ← field_of fields "tenant_id"
    actor_id ← field_of fields "actor_id"
    text ← field_of fields "payload"
    payload ← loaded text
    published_at ← field_of fields "published_at"
    ok (record {
      type = type;
      payload = payload;
      tenant_id = or_none tenant_id;
      actor_id = or_none actor_id;
      id = id;
      published_at = published_at;
    })

  -- An envelope is read back from its fields as it was, if its tenant and actor are not the empty
  -- text and JSON gives back its payload.
  pub envelope_roundtrip :
      (e : EventEnvelope)
      → e.tenant_id ≢ some ""
      → e.actor_id ≢ some ""
      → loads (dumps e.payload) ≡ some e.payload
      → from_redis_fields (to_redis_fields e) ≡ ok e
  unfolding from_redis_fields to_redis_fields field_of
  envelope_roundtrip e tenant actor payload =
      rw (loaded_lem (dumps e.payload) e.payload payload)
        (rw (or_none-or_empty e.tenant_id tenant, or_none-or_empty e.actor_id actor))
