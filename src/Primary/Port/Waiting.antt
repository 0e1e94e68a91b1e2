-- ===== src/Primary/Port/Waiting.antt =====
-- What `getPackage` gives its caller.
use elite_robots_cs_sdk.Shared.{
  ℕ, ◌≡◌, ◌≢◌, sym, ap, ◌∙◌, List, [], ◌∷◌, ◌++◌, Bytes, true, none, some, ok, >>=-eq-ok, All,
  arith, Option-cases, inl, inr, ◌⊎◌, subst,
}
use elite_robots_cs_sdk.Primary.Packages.{Contents, get_type, parser, get_type-parser}
use elite_robots_cs_sdk.Primary.Port.{Port, write, deliver}
use elite_robots_cs_sdk.Primary.Port.Loop.{Sub, sub_len, body, deliver_all}

-- A package waits for its own type.
unfoldable pub IsMatched : Port → Type 0
IsMatched port = (t p : ℕ) → port.parser_sub_msg t ≡ some p → get_type (port.heap p).contents ≡ t

-- The port behind a delivery to a pointer.
abbrev pub served : ℕ → ℕ → Contents → Port → Port
served t p d port = record {
  heap = write p (record { contents = d; ready = true }) port.heap;
  parser_sub_msg = write t none port.parser_sub_msg;
}

-- Nothing waits for the type, or a pointer does and is filled.
abbrev pub Delivered : ℕ → ℕ → Bytes → Port → Port → Type 0
Delivered t n iter port later =
    ((port.parser_sub_msg t ≡ none) × (port ≡ later))
    ⊎ ((p : ℕ) × (d : Contents) × (port.parser_sub_msg t ≡ some p)
        × (parser n iter (port.heap p).contents ≡ ok d)
        × (served t p d port ≡ later))

pub deliver-Delivered :
    (t n : ℕ) (iter : Bytes) (port later : Port)
    → deliver t n iter port ≡ ok later
    → Delivered t n iter port later
unfolding deliver
deliver-Delivered t n iter port later h = elim (Option-cases (port.parser_sub_msg t)) [
  | inl e ↦ let k = rw (e, deliver) at h in inl (e, cc)
  | inr (p, e) ↦
      let k = rw (e, deliver) at h in
      let (d, f, g) =
        >>=-eq-ok (parser n iter (port.heap p).contents) (λ d. ok (served t p d port)) k in
      inr (p, d, e, f, cc)
]

served-IsMatched :
    (t n p : ℕ) (iter : Bytes) (d : Contents) (port : Port)
    → IsMatched port
    → port.parser_sub_msg t ≡ some p
    → parser n iter (port.heap p).contents ≡ ok d
    → IsMatched (served t p d port)
unfolding IsMatched
served-IsMatched t n p iter d port m e f t' p' h =
    let same = get_type-parser n iter (port.heap p).contents d f in ground (arith, m t p, m t' p')

pub deliver-IsMatched :
    (t n : ℕ) (iter : Bytes) (port later : Port)
    → IsMatched port
    → deliver t n iter port ≡ ok later
    → IsMatched later
deliver-IsMatched t n iter port later m h = elim (deliver-Delivered t n iter port later h) [
  | inl (e, same) ↦ subst IsMatched same m
  | inr (p, d, e, f, same) ↦ subst IsMatched same (served-IsMatched t n p iter d port m e f)
]

-- A package of the type stays as it is while another type is delivered, or while nothing waits for its
-- own.
deliver_keeps :
    (t n p : ℕ) (iter : Bytes) (port later : Port)
    → IsMatched port
    → deliver t n iter port ≡ ok later
    → (port.parser_sub_msg (get_type (port.heap p).contents) ≡ none)
      ⊎ (t ≢ get_type (port.heap p).contents)
    → (later.heap p ≡ port.heap p)
      × (later.parser_sub_msg (get_type (port.heap p).contents)
          ≡ port.parser_sub_msg (get_type (port.heap p).contents))
unfolding IsMatched
deliver_keeps t n p iter port later m h idle = elim (deliver-Delivered t n iter port later h) [
  | inl (e, same) ↦ (
    ap (λ x. x.heap p) (sym same),
    ap (λ x. x.parser_sub_msg (get_type (port.heap p).contents)) (sym same),
  )
  | inr (p', d, e, f, same) ↦
      let kind = m t p' e in
      (
        ap (λ x. x.heap p) (sym same) ∙ ground arith,
        ap (λ x. x.parser_sub_msg (get_type (port.heap p).contents)) (sym same) ∙ ground arith,
      )
]

-- A package for whose type nothing waits is not touched any more.
pub settled :
    (qs : List Sub) (rest : Bytes) (p : ℕ) (t : ℕ) (port later : Port)
    → IsMatched port
    → get_type (port.heap p).contents ≡ t
    → port.parser_sub_msg t ≡ none
    → deliver_all qs rest port ≡ ok later
    → (later.heap p ≡ port.heap p) × (later.parser_sub_msg t ≡ none)
settled [] rest p t port later m kind e h =
    let same : port ≡ later = cc in
    (ap (λ x. x.heap p) (sym same), ap (λ x. x.parser_sub_msg t) (sym same) ∙ e)
settled (q ∷ qs) rest p t port later m kind e h =
    let (mid, f, g) =
      >>=-eq-ok (deliver q.sub_type (sub_len q) (body (q ∷ qs) rest) port) (deliver_all qs rest)
        h in
    let (kept, idle) =
      deliver_keeps q.sub_type (sub_len q) p (body (q ∷ qs) rest) port mid m f (inl (rw kind e)) in
    let (kept', idle') =
      settled qs rest p t mid later
        (deliver-IsMatched q.sub_type (sub_len q) (body (q ∷ qs) rest) port mid m f)
        (ap (λ x. get_type x.contents) kept ∙ kind)
        (sym (ap mid.parser_sub_msg kind) ∙ idle ∙ ap port.parser_sub_msg kind ∙ e) g in
    (kept' ∙ kept, idle')

-- A waiting package is filled from the first sub-package of its type.
pub fills :
    (front : List Sub) (q : Sub) (back : List Sub) (rest : Bytes) (p : ℕ) (port later : Port)
    → IsMatched port
    → get_type (port.heap p).contents ≡ q.sub_type
    → port.parser_sub_msg q.sub_type ≡ some p
    → All (λ o. o.sub_type ≢ q.sub_type) front
    → deliver_all (front ++ (q ∷ back)) rest port ≡ ok later
    → (d : Contents) × (parser (sub_len q) (body (q ∷ back) rest) (port.heap p).contents ≡ ok d)
      × (later.heap p ≡ record { contents = d; ready = true })
      × (later.parser_sub_msg q.sub_type ≡ none)
fills [] q back rest p port later m kind e none_before h =
    let (mid, f, g) =
      >>=-eq-ok (deliver q.sub_type (sub_len q) (body (q ∷ back) rest) port) (deliver_all back rest)
        h in
    elim (deliver-Delivered q.sub_type (sub_len q) (body (q ∷ back) rest) port mid f) [
      | inl (idle, same) ↦ absurd cc
      | inr (p', d, e', parsed, same) ↦
          let there : p' ≡ p = ground arith in
          let new : mid.heap p ≡ record { contents = d; ready = true } =
            ap (λ x. x.heap p) (sym same) ∙ ground arith in
          let gone : mid.parser_sub_msg q.sub_type ≡ none =
            ap (λ x. x.parser_sub_msg q.sub_type) (sym same) ∙ ground arith in
          let parsed' = rw there at parsed in
          let same_type =
            get_type-parser (sub_len q) (body (q ∷ back) rest) (port.heap p).contents d parsed' in
          let (kept, idle) =
            settled back rest p q.sub_type mid later
              (deliver-IsMatched q.sub_type (sub_len q) (body (q ∷ back) rest) port mid m f)
              (ap (λ x. get_type x.contents) new ∙ same_type ∙ kind) gone g in
          (d, parsed', kept ∙ new, idle)
    ]
fills (o ∷ front) q back rest p port later m kind e (differs, none_before) h =
    let iter = body (o ∷ (front ++ (q ∷ back))) rest in
    let (mid, f, g) =
      >>=-eq-ok (deliver o.sub_type (sub_len o) iter port) (deliver_all (front ++ (q ∷ back)) rest)
        h in
    let (kept, waits) =
      deliver_keeps o.sub_type (sub_len o) p iter port mid m f (inr (λ s. differs (s ∙ kind))) in
    let (d, parsed, new, gone) =
      fills front q back rest p mid later
        (deliver-IsMatched o.sub_type (sub_len o) iter port mid m f)
        (ap (λ x. get_type x.contents) kept ∙ kind)
        (sym (ap mid.parser_sub_msg kind) ∙ waits ∙ ap port.parser_sub_msg kind ∙ e) none_before
        g in
    (
      d,
      sym (ap (λ x. parser (sub_len q) (body (q ∷ back) rest) x.contents) kept) ∙ parsed,
      new,
      gone,
    )

-- A waiting package goes on waiting, as it is, when no sub-package of its type comes.
pub waiting :
    (qs : List Sub) (rest : Bytes) (p : ℕ) (port later : Port)
    → IsMatched port
    → port.parser_sub_msg (get_type (port.heap p).contents) ≡ some p
    → All (λ o. o.sub_type ≢ get_type (port.heap p).contents) qs
    → deliver_all qs rest port ≡ ok later
    → (later.heap p ≡ port.heap p)
      × (later.parser_sub_msg (get_type (port.heap p).contents) ≡ some p)
waiting [] rest p port later m e before h =
    let same : port ≡ later = cc in
    (
      ap (λ x. x.heap p) (sym same),
      ap (λ x. x.parser_sub_msg (get_type (port.heap p).contents)) (sym same) ∙ e,
    )
waiting (q ∷ qs) rest p port later m e (differs, before) h =
    let iter = body (q ∷ qs) rest in
    let (mid, f, g) =
      >>=-eq-ok (deliver q.sub_type (sub_len q) iter port) (deliver_all qs rest) h in
    let (kept, waits) = deliver_keeps q.sub_type (sub_len q) p iter port mid m f (inr differs) in
    let kind = ap (λ x. get_type x.contents) kept in
    let (kept', waits') =
      waiting qs rest p mid later (deliver-IsMatched q.sub_type (sub_len q) iter port mid m f)
        (ap mid.parser_sub_msg kind ∙ waits ∙ e)
        (subst (λ k. All (λ o. o.sub_type ≢ k) qs) (sym kind) before) g in
    (kept' ∙ kept, ap later.parser_sub_msg (sym kind) ∙ waits')
