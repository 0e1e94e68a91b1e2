-- ===== src/Rtsi/Client/Rounds.antt =====
-- The rounds of `receive`: which package the callback is given, and that the loop ends.
use elite_robots_cs_sdk.Shared.{
  ℕ, suc, ◌+◌, ◌-◌, ◌*◌, ◌≡◌, refl, [], ◌∷◌, ◌++◌, Bytes, Bool, Option, some, ok, le→leb, le→ltb,
  length, drop, arith, length-append, take-length-append, drop-length-append,
}
use elite_robots_cs_sdk.Endian.{unpack}
use elite_robots_cs_sdk.Rtsi.Client.Monad.{Socket, Client, Io, IsSettled, run_context_settled}
use elite_robots_cs_sdk.Rtsi.Client.Receive.{
  PackageType, fill, resize, receive_socket, package_read, package_body, package_head, receive_loop,
}

-- The client when the given bytes are left to come.
abbrev pub left : Client → Socket → Bytes → Client
left c s rest = record c { socket = some (record s { incoming = rest }) }

pub receive_socket-append :
    (c : Client) (s : Socket) (buff bytes rest : Bytes) (offset size : ℕ)
    → c.socket ≡ some s
    → s.incoming ≡ bytes ++ rest
    → size ≡ length bytes
    → IsSettled c
    → receive_socket buff size offset c
      ≡ (ok (some size, fill (resize (size + offset) buff) offset bytes), left c s rest)
unfolding receive_socket
receive_socket-append c s buff bytes rest offset size e f g h = rw (
  e,
  run_context_settled (record c { socket = some s }) h,
  f,
  g,
  le→leb (length bytes) (length (bytes ++ rest)) (omega (arith, length-append bytes rest)),
  take-length-append bytes rest,
  drop-length-append bytes rest,
)

-- What stands in the buffer behind the header, and behind the package, that was read into it.
abbrev behind_header : Bytes → Bytes
behind_header buff = drop 3 (resize 3 buff)

abbrev behind_package : Bytes → ℕ → ℕ → Bytes
behind_package buff1 size count = drop (3 + count) (resize (size + 3) buff1)

module _ {P : Type 0} (target : PackageType) (parser : ℕ → Bytes → P → Io P) (newest : Bool) where
  body-package :
      (again : Bytes → P → Io (Option P)) (h0 h1 h2 x : ℕ) (payload rest d : Bytes) (p : P)
      (c : Client) (s : Socket)
      → c.socket ≡ some s
      → s.incoming ≡ (x ∷ payload) ++ rest
      → IsSettled c
      → package_body target parser newest again (4 + length payload) h2 (h0 ∷ h1 ∷ h2 ∷ d) p c
        ≡ package_read target parser newest again
            (4 + length payload)
            h2
            (h0
              ∷ h1
              ∷ h2
              ∷ x
              ∷ (payload
                  ++ behind_package
                      (h0 ∷ h1 ∷ h2 ∷ d)
                      (suc (length payload))
                      (suc (length payload))))
            p
            (left c s rest)
  unfolding package_body
  body-package again h0 h1 h2 x payload rest d p c s e f settled =
      let whole : 4 + length payload - 3 ≡ suc (length payload) = omega arith in
      rw (
        le→ltb (4 + length payload) 3 (omega arith),
        whole,
        receive_socket-append c s (h0 ∷ h1 ∷ h2 ∷ d) (x ∷ payload) rest 3 (suc (length payload)) e f
            refl settled,
      )

  -- One round reads a whole package with a body, into the front of the buffer.
  pub round-package :
      (fuel h0 h1 h2 x : ℕ) (payload rest buff : Bytes) (p : P) (c : Client) (s : Socket)
      → c.socket ≡ some s
      → s.incoming ≡ h0 ∷ h1 ∷ h2 ∷ ((x ∷ payload) ++ rest)
      → h1 + 256 * h0 ≡ 4 + length payload
      → IsSettled c
      → (junk : Bytes) × (receive_loop target parser newest (suc fuel) buff p c
          ≡ package_read target parser newest
              (receive_loop target parser newest fuel)
              (4 + length payload)
              h2
              (h0 ∷ h1 ∷ h2 ∷ x ∷ (payload ++ junk))
              p
              (left c s rest))
  unfolding receive_loop package_head unpack
  round-package fuel h0 h1 h2 x payload rest buff p c s e f g settled =
      let d = behind_header buff in
      let total : h1 + 256 * (h0 + 0) ≡ 4 + length payload = omega arith in
      let body = (x ∷ payload) ++ rest in
      (
        behind_package (h0 ∷ h1 ∷ h2 ∷ d) (suc (length payload)) (suc (length payload)),
        rw (receive_socket-append c s buff (h0 ∷ h1 ∷ h2 ∷ []) body 0 3 e f refl settled, total)
            (body-package (receive_loop target parser newest fuel) h0 h1 h2 x payload rest d p
              (left c s body) (record s { incoming = body }) refl refl settled),
      )
