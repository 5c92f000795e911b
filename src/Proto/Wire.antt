-- ===== src/Proto/Wire.antt =====
-- game-server-hosting/server/proto/query.go: the query state and `WireWrite`. The encoders
-- are in proto/sqp/encoder.go and proto/a2s/encoder.go. A bytes.Buffer is the list of bytes written so far.
pub mod Format
use unity_gaming_services_go.Prelude.{
  ℕ, ◌%◌, List, [], ◌∷◌, ◌++◌, Outcome, ok, ◌>>=◌, Bytes, be16, be32, le16, le32, Slice,
}
use unity_gaming_services_go.Proto.Challenge.{QueryError}

-- `CurrentPlayers` and `MaxPlayers` are the bit patterns of an int32, `Port` is a uint16, and a
-- float32 is its bit pattern.
pub record QueryState : Type 0 where
  pub current_players : ℕ
  pub max_players : ℕ
  pub server_name : Bytes
  pub game_type : Bytes
  pub game_map : Bytes
  pub port : ℕ
  pub metrics : Slice ℕ

-- What encoding/binary writes in one call: fixed-size integers, and slices of bytes or float32s.
pub data Scalar : Type 0 where
  uint8 uint16 uint32 int16 : ℕ → Scalar
  bytes float32s : List ℕ → Scalar

-- A struct as package reflect shows it. A field is a value or a pointer to one.
mutual
  pub data Value : Type 0 where
    struct : Fields → Value
    string : Bytes → Value
    scalar : Scalar → Value

  pub data Fields : Type 0 where
    end : Fields
    field : Value → Fields → Fields
    nil_pointer : Fields → Fields
    pointer : Value → Fields → Fields

pub record WireEncoder : Type 0 where
  pub write_string : Bytes → Bytes → Outcome QueryError Bytes
  pub write : Bytes → Scalar → Outcome QueryError Bytes

-- `WireWrite`, one function for the loop over the fields and one for its switch on the kind.
unfoldable mutual
  pub wire_write : WireEncoder → Bytes → Fields → Outcome QueryError Bytes
  wire_write w resp end = ok resp
  wire_write w resp (field v fs) = write_value w resp v >>= λ out. wire_write w out fs
  wire_write w resp (nil_pointer fs) = wire_write w resp fs
  wire_write w resp (pointer v fs) = write_value w resp v >>= λ out. wire_write w out fs

  pub write_value : WireEncoder → Bytes → Value → Outcome QueryError Bytes
  write_value w resp (struct fs) = wire_write w resp fs
  write_value w resp (string s) = w.write_string resp s
  write_value w resp (scalar v) = w.write resp v

-- A byte order of encoding/binary, and what binary.Write appends in it. It never fails on these
-- types, and a bytes.Buffer takes all it is given.
pub record ByteOrder : Type 0 where
  pub put_uint16 : ℕ → Bytes
  pub put_uint32 : ℕ → Bytes

abbrev pub big_endian : ByteOrder
big_endian = record { put_uint16 = be16; put_uint32 = be32 }

abbrev pub little_endian : ByteOrder
little_endian = record { put_uint16 = le16; put_uint32 = le32 }

abbrev pub float32s_bytes : ByteOrder → List ℕ → Bytes
float32s_bytes o [] = []
float32s_bytes o (x ∷ xs) = o.put_uint32 x ++ float32s_bytes o xs

abbrev pub scalar_bytes : ByteOrder → Scalar → Bytes
scalar_bytes o (uint8 n) = (n % 256) ∷ []
scalar_bytes o (uint16 n) = o.put_uint16 n
scalar_bytes o (uint32 n) = o.put_uint32 n
scalar_bytes o (int16 n) = o.put_uint16 n
scalar_bytes o (bytes bs) = bs
scalar_bytes o (float32s fs) = float32s_bytes o fs

abbrev pub binary_write : ByteOrder → Bytes → Scalar → Outcome QueryError Bytes
binary_write o resp v = ok (resp ++ scalar_bytes o v)
