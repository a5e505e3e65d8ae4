-- ===== src/Sessions/StateStore/Roundtrip.antt =====
-- A browser state that is written is read back.
use sight_stalker.Prelude.{◌≡◌, Option, some, Text}
use sight_stalker.Models.Browser.{BrowserState}
use sight_stalker.Models.Json.{Json, Fields}
use sight_stalker.Artifacts.FileSystem.{FileSystem}
use sight_stalker.Artifacts.Manager.{Codec, encoded}
use sight_stalker.Persistence.Stored.{sort_value, sort_items, sort_fields}
use sight_stalker.Sessions.StateStore.{state_fields}

-- The state with the keys of its cookies and origins in order.
abbrev pub sorted_state : BrowserState → BrowserState
sorted_state state = record state {
  cookies = sort_items state.cookies;
  origins = sort_items state.origins;
}

-- What `json` and pydantic promise: what is encoded is decoded with sorted keys, and the dump of a state that validation
-- has made validates as that state.
pub record StateCodecLaws (codec : Codec) (model_validate : Fields → Option BrowserState)
    : Type 0 where
  pub decode-encode :
      (v : Json) (text : Text)
      → codec.encode_json v ≡ encoded text
      → codec.decode_json text ≡ some (sort_value v)
  pub validate-dump :
      (d : Fields) (state : BrowserState)
      → model_validate d ≡ some state
      → model_validate (sort_fields (state_fields state)) ≡ some (sorted_state state)
