-- ===== src/Protocol/Binary/Stamps.antt =====
-- src/protocol/binary.rs: the stamps of the envelopes that the decoders accept.
use signal_fish_client_rust.Common.{
  ℕ, zero, suc, ◌<◌, ◌≡◌, Bool, true, false, not, ◌&&◌, ◌||◌, Option, none, some, List, is_empty,
  ok, reject_if, ok_or, >>=-eq-ok, arith,
}
use signal_fish_client_rust.Protocol.Delivery.{GameDataEncoding, json, message_pack, rkyv}
use signal_fish_client_rust.Protocol.Messages.{ServerMessage, game_data_binary}
use signal_fish_client_rust.Protocol.Binary.{
  Wire, Field, from_player, encoding, payload, seq, epoch, not_a_map, key_not_a_string,
  unknown_field, trailing_bytes, Slots, empty_slots, known_field, field_of, encoding_of,
  require_field, read_field, read_fields, read_envelope, decode_v2_binary_game_data,
  V2BinaryGameDataFrame, V3BinaryGameDataFrame, decode_v3_binary_game_data,
  decode_binary_server_message,
}

abbrev pub is_positive : Option ℕ → Bool
is_positive none = true
is_positive (some zero) = false
is_positive (some (suc n)) = true

abbrev pub is_message_pack : Option GameDataEncoding → Bool
is_message_pack (some json) = false
is_message_pack (some rkyv) = false
is_message_pack _ = true

-- The numbers that the slots hold are positive, and those of a v2 envelope hold MessagePack data.
abbrev pub fits : Bool → Slots → Bool
fits v3 slots =
    is_positive slots.seq && is_positive slots.epoch && (v3 || is_message_pack slots.encoding)

-- A message of game data with a positive stamp in v3, and unstamped MessagePack data in v2.
abbrev pub is_envelope : {V : Type 0} → Bool → ServerMessage V → Bool
is_envelope true (game_data_binary _ _ _ (some (suc n)) (some (suc e))) = true
is_envelope false (game_data_binary _ message_pack _ none none) = true
is_envelope _ _ = false

module _ (w : Wire) where
  read_field-fits :
      (v3 : Bool) (field : Field) (bytes rest : List ℕ) (slots slots' : Slots)
      → read_field w v3 field bytes slots ≡ ok (slots', rest)
      → fits v3 slots ≡ true
      → fits v3 slots' ≡ true
  unfolding read_field encoding_of
  read_field-fits v3 from_player bytes rest slots slots' h p = ground arith
  read_field-fits v3 encoding bytes rest slots slots' h p = ground arith
  read_field-fits v3 payload bytes rest slots slots' h p = ground arith
  read_field-fits v3 seq bytes rest slots slots' h p = ground arith
  read_field-fits v3 epoch bytes rest slots slots' h p = ground arith

  read_fields-fits :
      (v3 : Bool) (count : ℕ) (bytes rest : List ℕ) (slots slots' : Slots)
      → read_fields w v3 count bytes slots ≡ ok (slots', rest)
      → fits v3 slots ≡ true
      → fits v3 slots' ≡ true
  unfolding read_fields
  read_fields-fits v3 zero bytes rest slots slots' h p = ground arith
  read_fields-fits v3 (suc count) bytes rest slots slots' h p =
      let ((key, tail), _, e1) = >>=-eq-ok (ok_or (w.read_str bytes) key_not_a_string) _ h in
      let (field, _, e2) = >>=-eq-ok (ok_or (known_field v3 (field_of key)) unknown_field) _ e1 in
      let ((mid, left), read, e3) = >>=-eq-ok (read_field w v3 field tail slots) _ e2 in
      read_fields-fits v3 count left rest mid slots' e3
        (read_field-fits v3 field tail left slots mid read p)

  read_envelope-fits :
      (v3 : Bool) (bytes : List ℕ) (slots : Slots)
      → read_envelope w v3 bytes ≡ ok slots
      → fits v3 slots ≡ true
  unfolding read_envelope
  read_envelope-fits v3 bytes slots h =
      let ((count, tail), _, e1) = >>=-eq-ok (ok_or (w.read_map_len bytes) not_a_map) _ h in
      let ((read, left), fields, e2) = >>=-eq-ok (read_fields w v3 count tail empty_slots) _ e1 in
      let (_, _, e3) = >>=-eq-ok (reject_if (not (is_empty left)) trailing_bytes) _ e2 in
      ground (arith, read_fields-fits v3 count tail left empty_slots read fields)

  decode_v3-positive :
      (bytes : List ℕ) (f : V3BinaryGameDataFrame)
      → decode_v3_binary_game_data w bytes ≡ ok f
      → (0 < f.seq) × (0 < f.epoch)
  unfolding decode_v3_binary_game_data require_field
  decode_v3-positive bytes f h =
      let (slots, read, e) = >>=-eq-ok (read_envelope w true bytes) _ h in
      ground (arith, read_envelope-fits true bytes slots read)

  decode_v2-message_pack :
      (bytes : List ℕ) (f : V2BinaryGameDataFrame)
      → decode_v2_binary_game_data w bytes ≡ ok f
      → is_message_pack (some f.encoding) ≡ true
  unfolding decode_v2_binary_game_data require_field
  decode_v2-message_pack bytes f h =
      let (slots, read, e) = >>=-eq-ok (read_envelope w false bytes) _ h in
      ground (arith, read_envelope-fits false bytes slots read)

  -- What the binary decoder accepts is game data: with a positive sequence number and epoch on a v3
  -- connection, and unstamped MessagePack data on a v2 one.
  pub decode_binary_server_message-is_envelope :
      (V : Type 0) (bytes : List ℕ) (v3 : Bool) (message : ServerMessage V)
      → decode_binary_server_message w V bytes v3 ≡ ok message
      → is_envelope v3 message ≡ true
  unfolding decode_binary_server_message
  decode_binary_server_message-is_envelope V bytes true message h =
      let (f, read, e) = >>=-eq-ok (decode_v3_binary_game_data w bytes) _ h in
      ground (arith, decode_v3-positive bytes f read)
  decode_binary_server_message-is_envelope V bytes false message h =
      let (f, read, e) = >>=-eq-ok (decode_v2_binary_game_data w bytes) _ h in
      ground (arith, decode_v2-message_pack bytes f read)
