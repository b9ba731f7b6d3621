-- ===== src/SignedMut/Wire.antt =====
-- The wire format of a public key: what is written is read back, and nothing else is read.
use obacht_agent.Base.{
  ℕ, ◌/◌, ◌%◌, ◌≡◌, ◌<◌, ◌≤◌, refl, sym, ap, ◌∙◌, false, [], ◌∷◌, ◌++◌, All, nlt→ltb, length,
  length-append, take, drop, take-append, drop-append, take-drop, length-take, All-drop, is_nil-eq,
  append-nil, is_nil, ltb, ◌==◌, nat_eq, list_eq, list_beq_iff, beq_refl, arith,
}
use obacht_agent.Base.Result.{ok, guard, guard-eq-ok, >>=-eq-ok}
use obacht_agent.SignedMut.Verify.{Bytes, public_key_size}
use obacht_agent.SignedMut.UserKeys.{
  wire_algo, trailing_bytes, key_size, algo, uint32, put_uint32, cut, read_ssh_string,
  marshal_ssh_ed25519, parse_wire,
}

cut-append :
    (n : ℕ) (field rest : Bytes)
    → length field ≡ n
    → length (field ++ rest) < 4294967296
    → cut n (field ++ rest) ≡ ok (field, rest)
cut-append n field rest e h =
    let total = length-append field rest in
    let fits : ltb (length (field ++ rest) % 4294967296) n ≡ false =
      nlt→ltb _ _ (omega (arith, e, h, total)) in
    let front : take n (field ++ rest) ≡ field = rw (← e) (take-append field rest) in
    let back : drop n (field ++ rest) ≡ rest = rw (← e) (drop-append field rest) in
    rw (fits, front, back) refl

cut-eq-ok :
    (n : ℕ) (r v rest : Bytes)
    → cut n r ≡ ok (v, rest)
    → (n ≤ length r) × (take n r ≡ v) × (drop n r ≡ rest)
cut-eq-ok n r v rest h = (ground arith, ground arith, ground arith)

-- The four bytes of a length are determined by it.
put-uint32 :
    (a b c d : ℕ)
    → a < 256
    → b < 256
    → c < 256
    → d < 256
    → put_uint32 (uint32 a b c d) ≡ a ∷ b ∷ c ∷ d ∷ []
put-uint32 a b c d ha hb hc hd =
    let e₁ : uint32 a b c d / 16777216 % 256 ≡ a = omega (arith, ha, hb, hc, hd) in
    let e₂ : uint32 a b c d / 65536 % 256 ≡ b = omega (arith, ha, hb, hc, hd) in
    let e₃ : uint32 a b c d / 256 % 256 ≡ c = omega (arith, ha, hb, hc, hd) in
    let e₄ : uint32 a b c d % 256 ≡ d = omega (arith, ha, hb, hc, hd) in rw (e₁, e₂, e₃, e₄) refl

read-written :
    (v rest : Bytes)
    → length (v ++ rest) < 4294967296
    → read_ssh_string (put_uint32 (length v) ++ v ++ rest) ≡ ok (v, rest)
unfolding read_ssh_string
read-written v rest h =
    let small : length v < 4294967296 = omega (arith, h, length-append v rest) in
    let same : uint32 (length v / 16777216 % 256) (length v / 65536 % 256) (length v / 256 % 256)
          (length v % 256)
        ≡ length v =
      omega (arith, small) in
    rw same (cut-append (length v) v rest refl h)

parse_wire-read :
    (wire tail key : Bytes)
    → read_ssh_string wire ≡ ok (algo, tail)
    → read_ssh_string tail ≡ ok (key, [])
    → length key ≡ public_key_size
    → parse_wire wire ≡ ok key
unfolding parse_wire
parse_wire-read wire tail key r₁ r₂ h = rw (r₁, beq_refl algo, r₂, h) refl

-- A key of 32 bytes is read back from what `marshalSSHEd25519` writes.
pub parse-marshal :
    (key : Bytes) → length key ≡ public_key_size → parse_wire (marshal_ssh_ed25519 key) ≡ ok key
unfolding marshal_ssh_ed25519
parse-marshal key h =
    let tail = put_uint32 (length key) ++ key in
    parse_wire-read _ tail key (read-written algo tail (omega (arith, h)))
      (rw (append-nil key) at (read-written key [] (omega (arith, h, length-append key [])))) h

read-canonical :
    (w v rest : Bytes)
    → All (λ b. b < 256) w
    → read_ssh_string w ≡ ok (v, rest)
    → (w ≡ put_uint32 (length v) ++ v ++ rest) × All (λ b. b < 256) rest
unfolding read_ssh_string
read-canonical (a ∷ b ∷ c ∷ d ∷ r) v rest (ha, (hb, (hc, (hd, hr)))) h =
    let (fits, front, back) = cut-eq-ok (uint32 a b c d) r v rest h in
    let size : length v ≡ uint32 a b c d = rw (← front) (length-take (uint32 a b c d) r fits) in
    let whole : a ∷ b ∷ c ∷ d ∷ r ≡ a ∷ b ∷ c ∷ d ∷ (v ++ rest) =
      ap (λ s. a ∷ b ∷ c ∷ d ∷ s) (rw (← front, ← back) (sym (take-drop (uint32 a b c d) r))) in
    let prefix : a ∷ b ∷ c ∷ d ∷ (v ++ rest) ≡ put_uint32 (uint32 a b c d) ++ v ++ rest =
      sym (ap (λ s. s ++ v ++ rest) (put-uint32 a b c d ha hb hc hd)) in
    (
      whole ∙ prefix ∙ ap (λ n. put_uint32 n ++ v ++ rest) (sym size),
      rw (← back) (All-drop (λ x. x < 256) (uint32 a b c d) r hr),
    )
read-canonical [] v rest bytes h = absurd (ground arith)
read-canonical (a ∷ []) v rest bytes h = absurd (ground arith)
read-canonical (a ∷ b ∷ []) v rest bytes h = absurd (ground arith)
read-canonical (a ∷ b ∷ c ∷ []) v rest bytes h = absurd (ground arith)

assemble :
    (wire name rest k rest' : Bytes)
    → name ≡ algo
    → rest' ≡ []
    → wire ≡ put_uint32 (length name) ++ name ++ rest
    → rest ≡ put_uint32 (length k) ++ k ++ rest'
    → wire ≡ marshal_ssh_ed25519 k
unfolding marshal_ssh_ed25519
assemble wire name rest k rest' named last w r =
    let tail : rest ≡ put_uint32 (length k) ++ k =
      r
      ∙ ap (λ s. put_uint32 (length k) ++ k ++ s) last
      ∙ ap (λ s. put_uint32 (length k) ++ s) (append-nil k) in
    w
    ∙ ap (λ s. put_uint32 (length s) ++ s ++ rest) named
    ∙ ap (λ s. put_uint32 (length algo) ++ algo ++ s) tail

-- Only what `marshalSSHEd25519` writes for a key of 32 bytes is read as that key.
pub parse-canonical :
    (wire key : Bytes)
    → All (λ b. b < 256) wire
    → parse_wire wire ≡ ok key
    → (wire ≡ marshal_ssh_ed25519 key) × (length key ≡ public_key_size)
unfolding parse_wire
parse-canonical wire key bytes h =
    let ((name, rest), r₁, h₁) = >>=-eq-ok (read_ssh_string wire) _ h in
    let (_, named, h₂) = >>=-eq-ok (guard (name == algo) wire_algo) _ h₁ in
    let ((k, rest'), r₂, h₃) = >>=-eq-ok (read_ssh_string rest) _ h₂ in
    let (_, done, h₄) = >>=-eq-ok (guard (is_nil rest') trailing_bytes) _ h₃ in
    let (_, sized, h₅) = >>=-eq-ok (guard (length k == public_key_size) key_size) _ h₄ in
    let is_algo : name ≡ algo = (list_beq_iff name algo).0 (guard-eq-ok _ _ named) in
    let same : k ≡ key = cc in
    let (c₁, bytes') = read-canonical wire name rest bytes r₁ in
    let (c₂, _) = read-canonical rest k rest' bytes' r₂ in
    let last = is_nil-eq rest' (guard-eq-ok _ _ done) in
    let size : length k ≡ public_key_size = ground (arith, guard-eq-ok _ _ sized) in
    (rw same at (assemble wire name rest k rest' is_algo last c₁ c₂), rw same at size)
