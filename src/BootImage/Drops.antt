-- ===== src/BootImage/Drops.antt =====
-- tools/linux/mkimage.py: which words `write_bootimg` leaves on the command line.
