-- ===== src/Pc/Complete/OverStc.antt =====
-- bef_zk/pc/stc_fri_pc.py over the vector commitment of bef_zk/stc/vc.py.
