-- ===== src/Vmx/Trap.antt =====
-- The trap on loads of cr3 by the target, were go_flg to be set.
