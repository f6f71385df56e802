-- ===== src/Network/Examples.antt =====
-- The theorems on messages and their encryption at concrete packets.
use otxlinux.Prelude.{
  ℕ, ◌≡◌, refl, false, List, [], ◌∷◌, map, arith, length, replicate, length-replicate, All,
  le_bytes,
}
use otxlinux.Network.Message.{max_size, fresh, set_buffer_position}
use otxlinux.Network.Message.Fields.{
  Field, byte, word16, word32, text, place, shape, write_all, read_all, encode_all, encode, IsField,
}
use otxlinux.Network.Message.RoundTrip.{read_all-write_all}
use otxlinux.Network.Xtea.{Key, encrypt_blocks, decrypt_blocks}
use otxlinux.Network.Xtea.Inverse.{decrypt_blocks-encrypt_blocks}
use otxlinux.Network.Protocol.Delivery.{Delivers, delivery}

abbrev key : Key
key = record { key0 = 1; key1 = 0xdeadbeef; key2 = 3; key3 = 0xffffffff }

abbrev packet : List Field
packet =
    byte 20
    ∷ word16 770
    ∷ text (72 ∷ 105 ∷ [])
    ∷ place (record { x = 32097; y = 32219; z = 7 })
    ∷ word32 4000000000
    ∷ []

empty_memory : List ℕ
empty_memory = replicate max_size 0

empty_memory_size : length empty_memory ≡ max_size
unfolding empty_memory
empty_memory_size = length-replicate {A = ℕ} max_size 0

packet-IsField : All IsField packet
packet-IsField = omega arith

packet_size : length (encode_all packet) ≡ 16
unfolding encode_all encode le_bytes
packet_size = refl

decrypt_blocks-encrypt_blocks_example :
    decrypt_blocks key 1 (encrypt_blocks key 1 (1 ∷ 2 ∷ 3 ∷ 4 ∷ 5 ∷ 6 ∷ 7 ∷ 255 ∷ 9 ∷ []))
    ≡ 1 ∷ 2 ∷ 3 ∷ 4 ∷ 5 ∷ 6 ∷ 7 ∷ 255 ∷ 9 ∷ []
decrypt_blocks-encrypt_blocks_example =
    decrypt_blocks-encrypt_blocks key 1 (1 ∷ 2 ∷ 3 ∷ 4 ∷ 5 ∷ 6 ∷ 7 ∷ 255 ∷ 9 ∷ []) (omega arith)

read_all-write_all_example :
    let r =
      read_all (map shape packet) (set_buffer_position 8 (write_all packet (fresh empty_memory))) in
    (r.0 ≡ packet) × (r.1.overrun ≡ false)
read_all-write_all_example =
    read_all-write_all packet empty_memory empty_memory_size packet-IsField
      (omega (arith, packet_size))

delivery_example : Delivers key packet (write_all packet (fresh empty_memory)) (fresh empty_memory)
unfolding fresh
delivery_example =
    delivery key packet empty_memory (fresh empty_memory) empty_memory_size empty_memory_size refl
      packet-IsField (omega (arith, packet_size))
