-- ===== src/Protocol/Examples.antt =====
-- src/protocol/binary.rs: a decoder of one-byte tokens, and one envelope of a v3 connection.
use signal_fish_client_rust.Common.{
  ℕ, ◌≡◌, refl, true, Option, none, some, List, [], ◌∷◌, ◌++◌, ◌==◌, if◌then◌else◌,
}
use Prim.Native.String.{String}
use signal_fish_client_rust.Protocol.Delivery.{message_pack}
use signal_fish_client_rust.Protocol.Messages.{ServerMessage, game_data_binary}
use signal_fish_client_rust.Protocol.Binary.{Wire, decode_binary_server_message}
use signal_fish_client_rust.Protocol.Binary.Stamps.{
  is_envelope, decode_binary_server_message-is_envelope,
}

abbrev head_of : List ℕ → Option (ℕ × List ℕ)
head_of [] = none
head_of (n ∷ ns) = some (n, ns)

-- The text that a token stands for.
abbrev token_of : ℕ → Option String
token_of n =
    if n == 1
    then some "from_player"
    else if n == 2
    then some "encoding"
    else if n == 3
    then some "payload"
    else if n == 4
    then some "seq"
    else if n == 5
    then some "epoch"
    else if n == 6
    then some "message_pack"
    else none

abbrev with_rest : List ℕ → Option String → Option (String × List ℕ)
with_rest rest none = none
with_rest rest (some token) = some (token, rest)

abbrev token_at : List ℕ → Option (String × List ℕ)
token_at [] = none
token_at (n ∷ ns) = with_rest ns (token_of n)

abbrev byte_wire : Wire
byte_wire = record {
  read_map_len = head_of;
  read_str = token_at;
  read_bin_len = head_of;
  read_u64 = head_of;
  read_u32 = head_of;
  uuid_from_bytes = λ bytes. 7;
}

abbrev uuid_bytes : List ℕ
uuid_bytes = 0 ∷ 0 ∷ 0 ∷ 0 ∷ 0 ∷ 0 ∷ 0 ∷ 0 ∷ 0 ∷ 0 ∷ 0 ∷ 0 ∷ 0 ∷ 0 ∷ 0 ∷ 7 ∷ []

abbrev envelope : List ℕ
envelope = (5 ∷ 4 ∷ 3 ∷ 1 ∷ 16 ∷ uuid_bytes) ++ 2 ∷ 6 ∷ 3 ∷ 1 ∷ 9 ∷ 5 ∷ 1 ∷ []

abbrev decoded : ServerMessage (Unit {0})
decoded = game_data_binary 7 message_pack (9 ∷ []) (some 3) (some 1)

decode_binary_server_message-is_envelope_example : is_envelope true decoded ≡ true
unfolding decode_binary_server_message
decode_binary_server_message-is_envelope_example =
    decode_binary_server_message-is_envelope byte_wire (Unit {0}) envelope true decoded refl
