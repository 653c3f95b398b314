-- ===== src/Stun/RoundTrip.antt =====
-- What the parsers read in a request.
use meowcaller.Base.{
  ℕ, zero, suc, ◌+◌, ◌*◌, ◌/◌, ◌%◌, ◌≤◌, ◌<◌, bit_xor, ◌≡◌, refl, sym, ap, ◌∙◌, Bool, true, false,
  Option, none, some, List, [], ◌∷◌, ◌++◌, append-nil, append_assoc, arith, ltb, length, take, drop,
  replicate, All, length-append, length-replicate, take-append, drop-append, All-append, Bytes,
  IsU16, be16, be32,
}
use meowcaller.Srtp.Crypto.{Crypto}
use meowcaller.Stun.{
  pad4, stun_attr, stun_pseudo_header, sign, fingerprint, encode_stun_request, stun_magic,
  stun_fingerprint_xor,
}
use meowcaller.Stun.Parse.{
  StunAttribute, is_stun_packet, stun_message_type, stun_transaction_id, stun_attributes,
  parse_stun_attributes,
}

unfoldable pub encode_attributes : List StunAttribute → Bytes
encode_attributes [] = []
encode_attributes (a ∷ rest) = stun_attr a.attr_type a.value ++ encode_attributes rest

abbrev pub IsAttribute : StunAttribute → Type 0
IsAttribute a = IsU16 a.attr_type × (length a.value < 65536)

length-stun_attr : (t : ℕ) (v : Bytes) → length (stun_attr t v) ≡ 4 + (length v + pad4 (length v))
unfolding stun_attr
length-stun_attr t v = omega (
  arith,
  length-append v (replicate (pad4 (length v)) 0),
  length-replicate {A = ℕ} (pad4 (length v)) 0,
)

stun_attributes-cons :
    (fuel t : ℕ) (v rest : Bytes)
    → IsU16 t
    → length v < 65536
    → stun_attributes (suc fuel) (stun_attr t v ++ rest)
      ≡ record { attr_type = t; value = v } ∷ stun_attributes fuel rest
unfolding stun_attributes stun_attr
stun_attributes-cons fuel t v rest ht hv =
    let pad : Bytes = replicate (pad4 (length v)) 0 in
    let size : length v / 256 % 256 * 256 + length v % 256 ≡ length v = omega arith in
    let type_is : t / 256 % 256 * 256 + t % 256 ≡ t = omega arith in
    let total : length ((v ++ pad) ++ rest) ≡ length v + pad4 (length v) + length rest = omega (
      arith,
      length-append (v ++ pad) rest,
      length-append v pad,
      length-replicate {A = ℕ} (pad4 (length v)) 0,
    ) in
    let fits : ltb (length ((v ++ pad) ++ rest)) (length v) ≡ false = ground (arith, total) in
    let head : take (length v) ((v ++ pad) ++ rest) ≡ v =
      ap (take (length v)) (append_assoc v pad rest)
      ∙ take-append (length v) v (pad ++ rest) refl in
    let tail : drop (length v + pad4 (length v)) ((v ++ pad) ++ rest) ≡ rest =
      drop-append (length v + pad4 (length v)) (v ++ pad) rest
        (omega (arith, length-append v pad, length-replicate {A = ℕ} (pad4 (length v)) 0)) in
    rw (size, type_is, fits, head, tail) (ground arith)

stun_attributes-encode :
    (fuel : ℕ) (attrs : List StunAttribute)
    → All IsAttribute attrs
    → length (encode_attributes attrs) ≤ fuel
    → stun_attributes fuel (encode_attributes attrs) ≡ attrs
unfolding encode_attributes
stun_attributes-encode zero [] v h = unfold stun_attributes in refl
stun_attributes-encode (suc fuel) [] v h = unfold stun_attributes in refl
stun_attributes-encode zero (a ∷ attrs) v h = absurd (
    omega (
      arith,
      length-append (stun_attr a.attr_type a.value) (encode_attributes attrs),
      length-stun_attr a.attr_type a.value,
    ))
stun_attributes-encode (suc fuel) (a ∷ attrs) ((ht, hv), v) h =
    stun_attributes-cons fuel a.attr_type a.value (encode_attributes attrs) ht hv
    ∙ ap (◌∷◌ a) (
        stun_attributes-encode fuel attrs v (
          omega (
            arith,
            length-append (stun_attr a.attr_type a.value) (encode_attributes attrs),
            length-stun_attr a.attr_type a.value,
          )))

encode_attributes-append :
    (xs ys : List StunAttribute)
    → encode_attributes (xs ++ ys) ≡ encode_attributes xs ++ encode_attributes ys
unfolding encode_attributes
encode_attributes-append [] ys = refl
encode_attributes-append (x ∷ xs) ys =
    ap (◌++◌ (stun_attr x.attr_type x.value)) (encode_attributes-append xs ys)
    ∙ sym
        (append_assoc (stun_attr x.attr_type x.value) (encode_attributes xs) (encode_attributes ys))

module _ (c : Crypto) (crc32 : Bytes → ℕ) (msg_type : ℕ) (transaction_id : Bytes) where
  -- The attribute that signs a message: the MAC is taken over the header, with the length that the
  -- message has behind the attribute, and over all attributes in front.
  abbrev pub integrity_attribute : Option Bytes → Bytes → List StunAttribute
  integrity_attribute none body = []
  integrity_attribute (some key) body =
      record {
        attr_type = 0x0008;
        value =
            c.hmac_sha1 key (stun_pseudo_header msg_type (length body + 24) transaction_id ++ body);
      }
      ∷ []

  abbrev pub fingerprint_attribute : Bool → Bytes → List StunAttribute
  fingerprint_attribute false body = []
  fingerprint_attribute true body =
      record {
        attr_type = 0x8028;
        value = be32 (
            bit_xor (crc32 (stun_pseudo_header msg_type (length body + 8) transaction_id ++ body))
              stun_fingerprint_xor);
      }
      ∷ []

  sign_lem :
      (key : Option Bytes) (attrs : List StunAttribute)
      → sign c crc32 msg_type transaction_id key (encode_attributes attrs)
        ≡ encode_attributes (attrs ++ integrity_attribute key (encode_attributes attrs))
  unfolding sign
  sign_lem none attrs = ap encode_attributes (sym (append-nil attrs))
  sign_lem (some key) attrs = sym (
      encode_attributes-append attrs (integrity_attribute (some key) (encode_attributes attrs))
      ∙ ap (◌++◌ (encode_attributes attrs)) (unfold encode_attributes in append-nil _))

  fingerprint_lem :
      (on : Bool) (attrs : List StunAttribute)
      → fingerprint c crc32 msg_type transaction_id on (encode_attributes attrs)
        ≡ encode_attributes (attrs ++ fingerprint_attribute on (encode_attributes attrs))
  unfolding fingerprint
  fingerprint_lem false attrs = ap encode_attributes (sym (append-nil attrs))
  fingerprint_lem true attrs = sym (
      encode_attributes-append attrs (fingerprint_attribute true (encode_attributes attrs))
      ∙ ap (◌++◌ (encode_attributes attrs)) (unfold encode_attributes in append-nil _))

  integrity-IsAttribute :
      (key : Option Bytes) (body : Bytes) → All IsAttribute (integrity_attribute key body)
  integrity-IsAttribute none body = tt
  integrity-IsAttribute (some key) body =
      let size =
        c.length-hmac_sha1 key
          (stun_pseudo_header msg_type (length body + 24) transaction_id ++ body) in
      ((omega arith, omega (arith, size)), tt)

  fingerprint-IsAttribute :
      (on : Bool) (body : Bytes) → All IsAttribute (fingerprint_attribute on body)
  fingerprint-IsAttribute false body = tt
  fingerprint-IsAttribute true body = omega arith

  -- The attributes of a request, in order.
  abbrev pub request_attributes : List StunAttribute → Option Bytes → Bool → List StunAttribute
  request_attributes attrs key on =
      let signed = attrs ++ integrity_attribute key (encode_attributes attrs) in
      signed ++ fingerprint_attribute on (encode_attributes signed)

  encode_lem :
      (attrs : List StunAttribute) (key : Option Bytes) (on : Bool)
      → encode_stun_request c crc32 msg_type transaction_id (encode_attributes attrs) key on
        ≡ stun_pseudo_header msg_type
            (length (encode_attributes (request_attributes attrs key on)))
            transaction_id
          ++ encode_attributes (request_attributes attrs key on)
  unfolding encode_stun_request
  encode_lem attrs key on =
      let signed = attrs ++ integrity_attribute key (encode_attributes attrs) in
      let body =
        ap (fingerprint c crc32 msg_type transaction_id on) (sign_lem key attrs)
        ∙ fingerprint_lem on signed in
      ap (λ b. stun_pseudo_header msg_type (length b) transaction_id ++ b) body

  parse_message :
      (n : ℕ) (attrs : List StunAttribute)
      → msg_type < 0x4000
      → length transaction_id ≡ 12
      → All IsAttribute attrs
      → let xs = stun_pseudo_header msg_type n transaction_id ++ encode_attributes attrs in
        (stun_message_type xs ≡ some msg_type)
        × (stun_transaction_id xs ≡ some transaction_id)
        × (parse_stun_attributes xs ≡ attrs)
  unfolding stun_pseudo_header stun_message_type stun_transaction_id parse_stun_attributes
      is_stun_packet
  parse_message n attrs t size v =
      let body = encode_attributes attrs in
      let total = length-append transaction_id body in
      let id_back : take 12 (transaction_id ++ body) ≡ transaction_id =
        take-append 12 transaction_id body (sym size) in
      let behind : drop 12 (transaction_id ++ body) ≡ body =
        drop-append 12 transaction_id body (sym size) in
      (
        ground (arith, t),
        ground (arith, total, size, id_back),
        ground (
          arith,
          t,
          total,
          size,
          behind,
          stun_attributes-encode
              (length (be16 msg_type ++ (be16 n ++ (be32 stun_magic ++ (transaction_id ++ body)))))
              attrs v (omega (arith, total)),
        ),
      )

  -- From a request with a message type below 0x4000, a transaction id of 12 bytes and attributes
  -- of 16-bit types and sizes the parsers read the type, the transaction id, and the attributes
  -- in order, followed by MESSAGE-INTEGRITY, if a key is given, and FINGERPRINT, if asked for.
  pub parse-encode_stun_request :
      (attrs : List StunAttribute) (key : Option Bytes) (on : Bool)
      → msg_type < 0x4000
      → length transaction_id ≡ 12
      → All IsAttribute attrs
      → let xs =
          encode_stun_request c crc32 msg_type transaction_id (encode_attributes attrs) key on in
        (stun_message_type xs ≡ some msg_type)
        × (stun_transaction_id xs ≡ some transaction_id)
        × (parse_stun_attributes xs ≡ request_attributes attrs key on)
  parse-encode_stun_request attrs key on t size v =
      let all = request_attributes attrs key on in
      let signed = attrs ++ integrity_attribute key (encode_attributes attrs) in
      let valid : All IsAttribute all =
        All-append IsAttribute signed (fingerprint_attribute on (encode_attributes signed))
          (All-append IsAttribute attrs (integrity_attribute key (encode_attributes attrs)) v
            (integrity-IsAttribute key (encode_attributes attrs)))
          (fingerprint-IsAttribute on (encode_attributes signed)) in
      rw (encode_lem attrs key on) (parse_message (length (encode_attributes all)) all t size valid)
