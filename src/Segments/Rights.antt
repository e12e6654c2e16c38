-- ===== src/Segments/Rights.antt =====
-- What vmx_segment_access_rights writes, vmx_get_seg_sec reads.
use imee.Base.{
  ℕ, ◌+◌, ◌*◌, ◌%◌, ◌^◌, ◌<◌, ◌≡◌, sym, ap, ◌∙◌, bit_or, bit_or_split, bit_or-zero, zero-bit_or,
  arith,
}
use imee.Segments.Cache.{segment_of}
use imee.Segments.{
  Segment, field, bits, usable_rights, vmx_segment_access_rights, vmx_get_seg_sec, fields_of,
}

-- A field above what is there.
or_field : (k x f : ℕ) → x < 2 ^ k → bit_or x (f * 2 ^ k) ≡ x + f * 2 ^ k
or_field k x f h =
    let left : x ≡ 0 * 2 ^ k + x = omega arith in
    let right : f * 2 ^ k ≡ f * 2 ^ k + 0 = omega arith in
    ap (λ y. bit_or y (f * 2 ^ k)) left
    ∙ ap (λ y. bit_or (0 * 2 ^ k + x) y) right
    ∙ bit_or_split k 0 x f 0 h (omega (arith, h))
    ∙ ap (λ y. y * 2 ^ k + bit_or x 0) (zero-bit_or f)
    ∙ ap (λ y. f * 2 ^ k + y) (bit_or-zero x)
    ∙ omega arith

or_step :
    (k acc a x w : ℕ)
    → acc ≡ a
    → a < 2 ^ k
    → x % 2 ^ w ≡ x
    → bit_or acc (field x w k) ≡ a + x * 2 ^ k
or_step k acc a x w e h small =
    ap (λ y. bit_or y (field x w k)) e ∙ ap (λ y. bit_or a (y * 2 ^ k)) small ∙ or_field k a x h

-- The ranges of the fields of a segment that is present and usable.
pub record IsPlain (var : Segment) : Type 0 where
  pub type_range : var.type < 16
  pub s_range : var.s < 2
  pub dpl_range : var.dpl < 4
  pub present_one : var.present ≡ 1
  pub avl_range : var.avl < 2
  pub l_range : var.l < 2
  pub db_range : var.db < 2
  pub g_range : var.g < 2
  pub usable : var.unusable ≡ 0

-- The fields, one above the other, are their sum.
rights-sum :
    (t s d p a l b g : ℕ)
    → t < 16
    → s < 2
    → d < 4
    → p < 2
    → a < 2
    → l < 2
    → b < 2
    → g < 2
    → let r1 = bit_or (field t 4 0) (field s 1 4) in
      let r4 = bit_or (bit_or (bit_or r1 (field d 2 5)) (field p 1 7)) (field a 1 12) in
      bit_or (bit_or (bit_or r4 (field l 1 13)) (field b 1 14)) (field g 1 15)
      ≡ t + s * 2 ^ 4 + d * 2 ^ 5 + p * 2 ^ 7 + a * 2 ^ 12 + l * 2 ^ 13 + b * 2 ^ 14 + g * 2 ^ 15
rights-sum t s d p a l b g ht hs hd hp ha hl hb hg =
    let s1 = t + s * 2 ^ 4 in
    let s2 = s1 + d * 2 ^ 5 in
    let s3 = s2 + p * 2 ^ 7 in
    let s4 = s3 + a * 2 ^ 12 in
    let s5 = s4 + l * 2 ^ 13 in
    let s6 = s5 + b * 2 ^ 14 in
    let a0 : field t 4 0 ≡ t = omega arith in
    let a1 = or_step 4 _ t s 1 a0 (omega arith) (omega arith) in
    let a2 = or_step 5 _ s1 d 2 a1 (omega arith) (omega arith) in
    let a3 = or_step 7 _ s2 p 1 a2 (omega arith) (omega arith) in
    let a4 = or_step 12 _ s3 a 1 a3 (omega arith) (omega arith) in
    let a5 = or_step 13 _ s4 l 1 a4 (omega arith) (omega arith) in
    let a6 = or_step 14 _ s5 b 1 a5 (omega arith) (omega arith) in
    or_step 15 _ s6 g 1 a6 (omega arith) (omega arith)

usable_rights-sum :
    (var : Segment)
    → IsPlain var
    → usable_rights var
      ≡ var.type
        + var.s * 2 ^ 4
        + var.dpl * 2 ^ 5
        + 2 ^ 7
        + var.avl * 2 ^ 12
        + var.l * 2 ^ 13
        + var.db * 2 ^ 14
        + var.g * 2 ^ 15
usable_rights-sum var p =
    rights-sum var.type var.s var.dpl var.present var.avl var.l var.db var.g p.type_range p.s_range
      p.dpl_range (omega (arith, p.present_one)) p.avl_range p.l_range p.db_range p.g_range
    ∙ omega (arith, p.present_one)

rights-lem : (var : Segment) → IsPlain var → vmx_segment_access_rights var ≡ usable_rights var
unfolding vmx_segment_access_rights
rights-lem var p = ground (arith, p.usable, p.present_one)

-- The fields of a number that is the sum of its fields.
unpack :
    (t s d a l b g ar : ℕ)
    → t < 16
    → s < 2
    → d < 4
    → a < 2
    → l < 2
    → b < 2
    → g < 2
    → ar ≡ t + s * 2 ^ 4 + d * 2 ^ 5 + 2 ^ 7 + a * 2 ^ 12 + l * 2 ^ 13 + b * 2 ^ 14 + g * 2 ^ 15
    → (ar % 2 ^ 4 ≡ t)
      × (bits ar 1 4 ≡ s)
      × (bits ar 2 5 ≡ d)
      × (bits ar 1 7 ≡ 1)
      × (bits ar 1 12 ≡ a)
      × (bits ar 1 13 ≡ l)
      × (bits ar 1 14 ≡ b)
      × (bits ar 1 15 ≡ g)
      × (bits ar 1 16 ≡ 0)
unpack t s d a l b g ar ht hs hd ha hl hb hg e = (
  omega arith,
  omega arith,
  omega arith,
  omega arith,
  omega arith,
  omega arith,
  omega arith,
  omega arith,
  omega arith,
)

same_segment :
    (var : Segment) {t pr d b s l g a u : ℕ}
    → t ≡ var.type
    → pr ≡ var.present
    → d ≡ var.dpl
    → b ≡ var.db
    → s ≡ var.s
    → l ≡ var.l
    → g ≡ var.g
    → a ≡ var.avl
    → u ≡ var.unusable
    → record var {
      type = t;
      present = pr;
      dpl = d;
      db = b;
      s = s;
      l = l;
      g = g;
      avl = a;
      unusable = u;
    }
      ≡ var
same_segment var et ep ed eb es el eg ea eu = cc (et, ep, ed, eb, es, el, eg, ea, eu)

-- A segment that is present and usable, with its fields in their ranges, is read back by
-- vmx_get_seg_sec from the access rights that vmx_segment_access_rights makes of it.
vmx_get_seg_sec-roundtrip : (var : Segment) → IsPlain var → vmx_get_seg_sec (fields_of var) ≡ var
unfolding vmx_get_seg_sec fields_of
vmx_get_seg_sec-roundtrip var p =
    let e = rights-lem var p ∙ usable_rights-sum var p in
    let (t, s, d, pr, a, l, b, g, u) =
      unpack var.type var.s var.dpl var.avl var.l var.db var.g (vmx_segment_access_rights var)
        p.type_range p.s_range p.dpl_range p.avl_range p.l_range p.db_range p.g_range e in
    same_segment var t (pr ∙ sym p.present_one) d b s l g a (u ∙ sym p.usable)

-- And so does vmx_get_segment, from the four fields.
pub segment_of-rights :
    (var : Segment)
    → IsPlain var
    → segment_of var.base var.limit var.selector (vmx_segment_access_rights var) ≡ var
segment_of-rights var p =
    let e = rights-lem var p ∙ usable_rights-sum var p in
    let (t, s, d, _, a, l, b, g, u) =
      unpack var.type var.s var.dpl var.avl var.l var.db var.g (vmx_segment_access_rights var)
        p.type_range p.s_range p.dpl_range p.avl_range p.l_range p.db_range p.g_range e in
    same_segment var t (rw u (sym p.present_one)) d b s l g a (u ∙ sym p.usable)
