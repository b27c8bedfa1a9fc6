-- ===== src/Protocol/Binary.antt =====
-- src/protocol/binary.rs: strict decoding of the binary game-data envelopes, and
-- `decode_binary_server_message` of src/client.rs. The MessagePack readers of the crate `rmp` and the
-- UUID constructor of the crate `uuid` are the parameter `Wire`.
pub mod Stamps
use signal_fish_client_rust.Common.{
  ℕ, zero, suc, ◌+◌, ◌≤◌, Bool, true, false, not, Option, none, some, List, [], ◌∷◌, ◌==◌, ltb,
  if◌then◌else◌, is_some, is_empty, length, take, drop, Result, ok, err, reject_if, ok_or, ◌>>=◌,
  ◌>>◌,
}
use Prim.Native.String.{String}
use text.Mathlib.Text.{◌==◌ as str_eq}
use signal_fish_client_rust.Protocol.Delivery.{PlayerId, GameDataEncoding, json, message_pack, rkyv}
use signal_fish_client_rust.Protocol.Messages.{ServerMessage, game_data_binary}

-- Each reader takes a value off the front of the bytes, or fails.
pub record Wire : Type 0 where
  pub read_map_len : List ℕ → Option (ℕ × List ℕ)
  pub read_str : List ℕ → Option (String × List ℕ)
  pub read_bin_len : List ℕ → Option (ℕ × List ℕ)
  pub read_u64 : List ℕ → Option (ℕ × List ℕ)
  pub read_u32 : List ℕ → Option (ℕ × List ℕ)
  pub uuid_from_bytes : List ℕ → PlayerId

-- The fields of an envelope.
pub data Field : Type 0 where
  from_player encoding payload seq epoch : Field

pub data DecodeError : Type 0 where
  not_a_map key_not_a_string unknown_field uuid_length unknown_encoding : DecodeError
  trailing_bytes zero_seq zero_epoch : DecodeError
  duplicate missing not_a_string not_binary truncated not_an_integer : Field → DecodeError

pub record V3BinaryGameDataFrame : Type 0 where
  pub from_player : PlayerId
  pub encoding : GameDataEncoding
  pub payload : List ℕ
  pub seq : ℕ
  pub epoch : ℕ

pub record V2BinaryGameDataFrame : Type 0 where
  pub from_player : PlayerId
  pub encoding : GameDataEncoding
  pub payload : List ℕ

-- The local `Option` variables of a decoder.
pub record Slots : Type 0 where
  pub from_player : Option PlayerId
  pub encoding : Option GameDataEncoding
  pub payload : Option (List ℕ)
  pub seq : Option ℕ
  pub epoch : Option ℕ

abbrev pub empty_slots : Slots
empty_slots = record {
  from_player = none;
  encoding = none;
  payload = none;
  seq = none;
  epoch = none;
}

-- The `match key`.
unfoldable pub field_of : String → Option Field
field_of key =
    if str_eq key "from_player"
    then some from_player
    else if str_eq key "encoding"
    then some encoding
    else if str_eq key "payload"
    then some payload
    else if str_eq key "seq"
    then some seq
    else if str_eq key "epoch"
    then some epoch
    else none

abbrev pub in_v2 : Field → Bool
in_v2 seq = false
in_v2 epoch = false
in_v2 _ = true

-- A v2 envelope has no stamp: there its two fields are unknown.
abbrev pub known_field : (v3 : Bool) → Option Field → Option Field
known_field v3 none = none
known_field true (some field) = some field
known_field false (some field) = if in_v2 field then some field else none

unfoldable pub encoding_of : (v3 : Bool) → String → Option GameDataEncoding
encoding_of true value =
    if str_eq value "json"
    then some json
    else if str_eq value "message_pack"
    then some message_pack
    else if str_eq value "rkyv"
    then some rkyv
    else none
encoding_of false value = if str_eq value "message_pack" then some message_pack else none

unfoldable pub reject_duplicate {ℓ} :
    {A : Type ℓ} → Option A → Field → Result (Unit {0}) DecodeError
reject_duplicate slot field = reject_if (is_some slot) (duplicate field)

unfoldable pub require_field {ℓ} : {A : Type ℓ} → Option A → Field → Result A DecodeError
require_field slot field = ok_or slot (missing field)

module _ (w : Wire) where
  unfoldable pub read_binary : List ℕ → Field → Result (List ℕ × List ℕ) DecodeError
  read_binary bytes field = do
    (len, rest) ← ok_or (w.read_bin_len bytes) (not_binary field)
    reject_if (ltb (length rest) len) (truncated field)
    ok (take len rest, drop len rest)

  -- The body of the loop behind the key.
  unfoldable pub read_field :
      (v3 : Bool) → Field → List ℕ → Slots → Result (Slots × List ℕ) DecodeError
  unfolding read_binary reject_duplicate encoding_of
  read_field v3 from_player bytes slots = do
    reject_duplicate slots.from_player from_player
    (value, rest) ← read_binary bytes from_player
    reject_if (not (length value == 16)) uuid_length
    ok (record slots { from_player = some (w.uuid_from_bytes value) }, rest)
  read_field v3 encoding bytes slots = do
    reject_duplicate slots.encoding encoding
    (value, rest) ← ok_or (w.read_str bytes) (not_a_string encoding)
    token ← ok_or (encoding_of v3 value) unknown_encoding
    ok (record slots { encoding = some token }, rest)
  read_field v3 payload bytes slots = do
    reject_duplicate slots.payload payload
    (value, rest) ← read_binary bytes payload
    ok (record slots { payload = some value }, rest)
  read_field v3 seq bytes slots = do
    reject_duplicate slots.seq seq
    (value, rest) ← ok_or (w.read_u64 bytes) (not_an_integer seq)
    reject_if (value == 0) zero_seq
    ok (record slots { seq = some value }, rest)
  read_field v3 epoch bytes slots = do
    reject_duplicate slots.epoch epoch
    (value, rest) ← ok_or (w.read_u32 bytes) (not_an_integer epoch)
    reject_if (value == 0) zero_epoch
    ok (record slots { epoch = some value }, rest)

  -- `for _ in 0..field_count`.
  unfoldable pub read_fields :
      (v3 : Bool) → (field_count : ℕ) → List ℕ → Slots → Result (Slots × List ℕ) DecodeError
  unfolding read_field field_of
  read_fields v3 zero bytes slots = ok (slots, bytes)
  read_fields v3 (suc count) bytes slots = do
    (key, rest) ← ok_or (w.read_str bytes) key_not_a_string
    field ← ok_or (known_field v3 (field_of key)) unknown_field
    (slots', rest') ← read_field v3 field rest slots
    read_fields v3 count rest' slots'

  unfoldable pub read_envelope : (v3 : Bool) → List ℕ → Result Slots DecodeError
  unfolding read_fields
  read_envelope v3 wire = do
    (field_count, bytes) ← ok_or (w.read_map_len wire) not_a_map
    (slots, rest) ← read_fields v3 field_count bytes empty_slots
    reject_if (not (is_empty rest)) trailing_bytes
    ok slots

  unfoldable pub decode_v2_binary_game_data : List ℕ → Result V2BinaryGameDataFrame DecodeError
  unfolding read_envelope require_field
  decode_v2_binary_game_data wire = do
    slots ← read_envelope false wire
    player ← require_field slots.from_player from_player
    token ← require_field slots.encoding encoding
    bytes ← require_field slots.payload payload
    ok (record { from_player = player; encoding = token; payload = bytes })

  unfoldable pub decode_v3_binary_game_data : List ℕ → Result V3BinaryGameDataFrame DecodeError
  unfolding read_envelope require_field
  decode_v3_binary_game_data wire = do
    slots ← read_envelope true wire
    player ← require_field slots.from_player from_player
    token ← require_field slots.encoding encoding
    bytes ← require_field slots.payload payload
    n ← require_field slots.seq seq
    e ← require_field slots.epoch epoch
    ok (record { from_player = player; encoding = token; payload = bytes; seq = n; epoch = e })

  unfoldable pub decode_binary_server_message :
      (V : Type 0) → List ℕ → (protocol_v3 : Bool) → Result (ServerMessage V) DecodeError
  unfolding decode_v2_binary_game_data decode_v3_binary_game_data
  decode_binary_server_message V bytes true = do
    f ← decode_v3_binary_game_data bytes
    ok (game_data_binary f.from_player f.encoding f.payload (some f.seq) (some f.epoch))
  decode_binary_server_message V bytes false = do
    f ← decode_v2_binary_game_data bytes
    ok (game_data_binary f.from_player f.encoding f.payload none none)
