-- ===== src/Agent/Copy.antt =====
-- The bytes that the agents of scan_tool_sync/lib copy in rounds of 128 bytes.
use imee.Base.{
  ℕ, ◌+◌, ◌-◌, ◌*◌, ◌/◌, ◌%◌, ◌^◌, ◌<◌, ◌≤◌, ◌≡◌, ◌≢◌, ◌∙◌, ap, Bool, ◌&&◌, ltb, leb, ◌==◌,
  if◌then◌else◌, arith,
}
use imee.Agent.{ebx, edi, ebp, Program}
use imee.Agent.Machine.{Cpu, w32, set_reg}
use imee.Agent.Runs.{stores, stores-cr3, stores-regs, stores-mem, asked}
use imee.Agent.Rounds.{loaded, loaded-mem, loaded-cr3, loaded-regs, loaded-xmm, round}

-- After `i` rounds that started in memory `m` with a request for address `a`.
pub record Copied (local guest a : ℕ) (m : ℕ → ℕ → ℕ) (i : ℕ) (s : Cpu) : Type 0 where
  pub at_local : s.cr3 ≡ local
  pub at_guest : s.regs ebx ≡ guest
  pub count : s.regs ebp ≡ i
  pub request : asked s ≡ a
  pub source : (b : ℕ) → b < 2 ^ 32 → s.mem guest b ≡ m guest b
  pub copied :
      (b : ℕ)
      → b < 2 ^ 32
      → s.mem local b
        ≡ (if leb 12 b && ltb b (12 + 128 * i) then m guest (w32 (a + (b - 12))) else m local b)

pub asked-same :
    (local : ℕ) (s u : Cpu)
    → s.cr3 ≡ local
    → u.cr3 ≡ local
    → ((b : ℕ) → b < 12 → u.mem local b ≡ s.mem local b)
    → asked u ≡ asked s
asked-same local s u e f same =
    cc
      (e, f, same 4 (omega arith), same 5 (omega arith), same 6 (omega arith), same 7 (omega arith))

-- The test for a block of 128 bytes, and what is there where it holds.
if-block :
    (q : Bool) (lo hi b x x' y : ℕ)
    → hi ≡ lo + 128
    → (lo ≤ b → b < hi → x ≡ x')
    → (if q && (leb lo b && ltb b (lo + 128)) then x else y)
      ≡ (if q && (leb lo b && ltb b hi) then x' else y)
if-block q lo hi b x x' y e same = ground (arith, e, same)

module _ (n : ℕ) (rest : Program) (local guest a : ℕ) (m : ℕ → ℕ → ℕ) (small : local < 2 ^ 32)
    (apart : guest ≢ local) where
  abbrev Before : ℕ → Cpu → Type 0
  Before = Copied local guest a m

  loaded_local : (i : ℕ) (s : Cpu) → Before i s → (loaded n rest s).cr3 ≡ local
  loaded_local i s before = loaded-cr3 n rest s ∙ omega (arith, before.at_local, small)

  loaded_edi : (i : ℕ) (s : Cpu) → i ≤ 30 → Before i s → (loaded n rest s).regs edi ≡ 12 + 128 * i
  loaded_edi i s few before =
      let regs = loaded-regs n rest s (omega (arith, few, before.count)) in
      regs.2 ∙ ap (λ e. 12 + 128 * e) before.count

  -- The bytes that a round loads.
  loaded_byte :
      (i : ℕ) (s : Cpu) (b : ℕ)
      → i ≤ 30
      → Before i s
      → 12 + 128 * i ≤ b
      → b < 12 + 128 * (i + 1)
      → (loaded n rest s).xmm ((b - (12 + 128 * i)) / 16) ((b - (12 + 128 * i)) % 16)
        ≡ m guest (w32 (a + (b - 12)))
  loaded_byte i s b few before lo hi =
      let k = (b - (12 + 128 * i)) / 16 in
      let j = (b - (12 + 128 * i)) % 16 in
      let at : asked s + 128 * s.regs ebp + 16 * k + j ≡ a + (b - 12) =
        omega (arith, before.request, before.count, lo) in
      loaded-xmm n rest s k j (omega (arith, hi)) (omega (arith, few, before.count))
      ∙ ap (λ c. s.mem (s.regs ebx) (w32 c)) at
      ∙ ap (λ g. s.mem g (w32 (a + (b - 12)))) before.at_guest
      ∙ before.source (w32 (a + (b - 12))) (omega arith)

  -- Memory after a round.
  round-mem :
      (i : ℕ) (s : Cpu)
      → i ≤ 30
      → Copied local guest a m i s
      → (r b : ℕ) → b < 2 ^ 32
      → (round n rest s).mem r b ≡ (
          if (r == local) && (leb (12 + 128 * i) b && ltb b (12 + 128 * (i + 1)))
          then m guest (w32 (a + (b - 12)))
          else s.mem r b)
  unfolding set_reg
  round-mem i s few before r b hb =
      let edge = loaded_edi i s few before in
      let t = loaded n rest s in
      stores-mem 8 t r b hb (omega (arith, edge, few))
      ∙ ap
          (λ e.
            if (r == t.cr3) && (leb e b && ltb b (e + 128))
            then t.xmm ((b - e) / 16) ((b - e) % 16)
            else t.mem r b)
          edge
      ∙ ap
          (λ c.
            if (r == c) && (leb (12 + 128 * i) b && ltb b (12 + 128 * i + 128))
            then t.xmm ((b - (12 + 128 * i)) / 16) ((b - (12 + 128 * i)) % 16)
            else t.mem r b)
          (loaded_local i s before)
      ∙ ap
          (λ mem.
            if (r == local) && (leb (12 + 128 * i) b && ltb b (12 + 128 * i + 128))
            then t.xmm ((b - (12 + 128 * i)) / 16) ((b - (12 + 128 * i)) % 16)
            else mem r b)
          (loaded-mem n rest s)
      ∙ if-block (r == local) (12 + 128 * i) (12 + 128 * (i + 1)) b
          (t.xmm ((b - (12 + 128 * i)) / 16) ((b - (12 + 128 * i)) % 16))
          (m guest (w32 (a + (b - 12)))) (s.mem r b) (omega arith) (loaded_byte i s b few before)

  pub round-Copied : (i : ℕ) (s : Cpu) → i ≤ 30 → Before i s → Before (i + 1) (round n rest s)
  unfolding set_reg
  round-Copied i s few before =
      let mem = round-mem i s few before in
      let regs = loaded-regs n rest s (omega (arith, few, before.count)) in
      let low : (b : ℕ) → b < 12 → (round n rest s).mem local b ≡ s.mem local b =
        λ b lt. mem local b (omega (arith, lt)) ∙ ground (arith, lt) in
      let after = stores-regs 8 (loaded n rest s) in
      let ebp_after : (stores 8 (loaded n rest s)).regs ebp ≡ i =
        ap (λ f. f ebp) after ∙ regs.1 ∙ before.count in
      let at : (round n rest s).cr3 ≡ local =
        stores-cr3 8 (loaded n rest s) ∙ loaded_local i s before in
      record {
        at_local = at;
        at_guest = ap (λ f. f ebx) after ∙ regs.0 ∙ before.at_guest;
        count = ap (λ c. w32 (c + 1)) ebp_after ∙ omega (arith, few);
        request = asked-same local s (round n rest s) before.at_local at low ∙ before.request;
        source = λ b hb. mem guest b hb ∙ ground (arith, apart, before.source b hb);
        copied = λ b hb. mem local b hb ∙ ground (arith, before.copied b hb);
      }
