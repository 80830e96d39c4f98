-- ===== src/Fri/Complete/OverStc.antt =====
-- bef_zk/fri over the vector commitment of bef_zk/stc/vc.py.
