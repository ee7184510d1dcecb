-- ===== src/Ed25519/Roots.antt =====
-- tools/techo5lib.py: what `_recover_x` answers.
