-- ===== src/Proto/Wire/Format.antt =====
-- `WireWrite` against the layout of a struct: its fields one after the other, pointers followed,
-- nil pointers left out.
use unity_gaming_services_go.Prelude.{
  ◌≡◌, sym, ◌∙◌, ap, [], ◌++◌, append-nil, append_assoc, ok, Bytes,
}
use unity_gaming_services_go.Proto.Wire.{
  Scalar, Value, struct, string, scalar, Fields, end, field, nil_pointer, pointer, WireEncoder,
  wire_write, write_value,
}

-- The layout of a struct, given that of a text and of a number.
unfoldable mutual
  pub format : (Bytes → Bytes) → (Scalar → Bytes) → Fields → Bytes
  format text num end = []
  format text num (field v fs) = format_value text num v ++ format text num fs
  format text num (nil_pointer fs) = format text num fs
  format text num (pointer v fs) = format_value text num v ++ format text num fs

  pub format_value : (Bytes → Bytes) → (Scalar → Bytes) → Value → Bytes
  format_value text num (struct fs) = format text num fs
  format_value text num (string s) = text s
  format_value text num (scalar v) = num v

-- An encoder that appends and never fails: the contract of the encoders of sqp and a2s.
pub record IsAppending (w : WireEncoder) (text : Bytes → Bytes) (num : Scalar → Bytes)
    : Type 0 where
  pub write_string_appends : (resp s : Bytes) → w.write_string resp s ≡ ok (resp ++ text s)
  pub write_appends : (resp : Bytes) (v : Scalar) → w.write resp v ≡ ok (resp ++ num v)

module _ {w : WireEncoder} {text : Bytes → Bytes} {num : Scalar → Bytes}
    (law : IsAppending w text num) where
  mutual
    unfolding wire_write write_value format format_value

    wire_write_appends :
        (fs : Fields) (resp : Bytes) → wire_write w resp fs ≡ ok (resp ++ format text num fs)
    wire_write_appends end resp = ap ok (sym (append-nil resp))
    wire_write_appends (field v fs) resp =
        rw (write_value_appends v resp)
          (wire_write_appends fs (resp ++ format_value text num v) ∙ rw append_assoc)
    wire_write_appends (nil_pointer fs) resp = wire_write_appends fs resp
    wire_write_appends (pointer v fs) resp =
        rw (write_value_appends v resp)
          (wire_write_appends fs (resp ++ format_value text num v) ∙ rw append_assoc)

    write_value_appends :
        (v : Value) (resp : Bytes) → write_value w resp v ≡ ok (resp ++ format_value text num v)
    write_value_appends (struct fs) resp = wire_write_appends fs resp
    write_value_appends (string s) resp = law.write_string_appends resp s
    write_value_appends (scalar v) resp = law.write_appends resp v

  -- With an encoder that appends and never fails, `WireWrite` appends the struct's layout to what
  -- the buffer holds, and does not fail.
  pub wire_write-format :
      (fs : Fields) (resp : Bytes) → wire_write w resp fs ≡ ok (resp ++ format text num fs)
  wire_write-format fs resp = wire_write_appends fs resp
