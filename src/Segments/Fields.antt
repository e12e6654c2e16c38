-- ===== src/Segments/Fields.antt =====
-- The fields of the segment cache of kvm/vmx.c and their bits.
use imee.Base.{ℕ, ◌<◌, ◌≡◌, refl, ◌==◌, if◌then◌else◌, arith}
use imee.Segments.{SegmentFields}
use imee.Segments.Cache.{
  CacheField, field_sel, field_base, field_limit, field_ar, field_number, get_field, put_field,
  cache_bit,
}

field_number-lt : (f : CacheField) → field_number f < 4
field_number-lt field_sel = omega arith
field_number-lt field_base = omega arith
field_number-lt field_limit = omega arith
field_number-lt field_ar = omega arith

pub get_field-put_field :
    (f f' : CacheField) (x : ℕ) (y : SegmentFields)
    → get_field f' (put_field f x y)
      ≡ (if field_number f' == field_number f then x else get_field f' y)
get_field-put_field field_sel field_sel x y = refl
get_field-put_field field_sel field_base x y = refl
get_field-put_field field_sel field_limit x y = refl
get_field-put_field field_sel field_ar x y = refl
get_field-put_field field_base field_sel x y = refl
get_field-put_field field_base field_base x y = refl
get_field-put_field field_base field_limit x y = refl
get_field-put_field field_base field_ar x y = refl
get_field-put_field field_limit field_sel x y = refl
get_field-put_field field_limit field_base x y = refl
get_field-put_field field_limit field_limit x y = refl
get_field-put_field field_limit field_ar x y = refl
get_field-put_field field_ar field_sel x y = refl
get_field-put_field field_ar field_base x y = refl
get_field-put_field field_ar field_limit x y = refl
get_field-put_field field_ar field_ar x y = refl

pub same_number : (f f' : CacheField) → field_number f' ≡ field_number f → f' ≡ f
same_number field_sel field_sel e = refl
same_number field_base field_base e = refl
same_number field_limit field_limit e = refl
same_number field_ar field_ar e = refl
same_number field_sel field_base e = absurd (omega (arith, e))
same_number field_sel field_limit e = absurd (omega (arith, e))
same_number field_sel field_ar e = absurd (omega (arith, e))
same_number field_base field_sel e = absurd (omega (arith, e))
same_number field_base field_limit e = absurd (omega (arith, e))
same_number field_base field_ar e = absurd (omega (arith, e))
same_number field_limit field_sel e = absurd (omega (arith, e))
same_number field_limit field_base e = absurd (omega (arith, e))
same_number field_limit field_ar e = absurd (omega (arith, e))
same_number field_ar field_sel e = absurd (omega (arith, e))
same_number field_ar field_base e = absurd (omega (arith, e))
same_number field_ar field_limit e = absurd (omega (arith, e))

-- Two fields of two registers have different bits.
pub cache_bit-same :
    (seg seg' : ℕ) (f f' : CacheField)
    → cache_bit seg' f' ≡ cache_bit seg f
    → (seg' ≡ seg) × (field_number f' ≡ field_number f)
cache_bit-same seg seg' f f' e =
    let a = field_number-lt f in
    let b = field_number-lt f' in (omega (arith, e, a, b), omega (arith, e, a, b))
