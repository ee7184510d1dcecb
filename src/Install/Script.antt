-- ===== src/Install/Script.antt =====
-- tools/install-dot.py: the text of SLOT_SCRIPT.
use techo5_dot.Prelude.{List, [], ◌∷◌, ◌++◌, Bytes, codes}

abbrev lines : List Bytes
lines =
    codes "set -e"
    ∷ codes "T=$1"
    ∷ codes "B=$T/busybox"
    ∷ codes "S=$2"
    ∷ codes "mkdir -p $S/slots"
    ∷ codes
        "# A slot a from an earlier install is set aside until the new one has unpacked, then removed."
    ∷ codes "rm -rf $S/slots/a.old $S/slots/b.old"
    ∷ codes "if [ -d $S/slots/a ]; then mv $S/slots/a $S/slots/a.old; fi"
    ∷ codes "mkdir -p $S/slots/a"
    ∷ codes "cd $S/slots/a"
    ∷ codes "$B tar xzf $T/rootfs.tar.gz"
    ∷ codes "[ -x $S/slots/a/sbin/init ] || { echo \"unpacked slot has no /sbin/init\"; exit 1; }"
    ∷ codes
        "# The unit's firmware moves from the old slot into the store, where both slots find it."
    ∷ codes
        "if [ ! -e $S/firmware/WIFI_RAM_CODE_8163 ] && [ -e $S/slots/a.old/etc/firmware/WIFI_RAM_CODE_8163 ]; then"
    ∷ codes "\tmkdir -p $S/firmware; cp $S/slots/a.old/etc/firmware/* $S/firmware/"
    ∷ codes "fi"
    ∷ codes "rm -rf $S/slots/a.old"
    ∷ codes
        "# Installed and checked from here, so it starts good rather than on trial. A slot b is left as it is."
    ∷ codes ": > $S/.techo5-store"
    ∷ codes "echo good > $S/slots/a.state"
    ∷ codes "echo a > $S/active"
    ∷ codes "rm -f $S/rescue"
    ∷ codes "sync"
    ∷ codes
        "echo \"slot a: $(cat $S/slots/a/etc/techo5-release), $(ls $S/slots/a/bin | wc -l) commands in /bin\""
    ∷ []

abbrev with_ends : List Bytes → Bytes
with_ends [] = []
with_ends (l ∷ ls) = l ++ (10 ∷ with_ends ls)

-- `SLOT_SCRIPT`
unfoldable pub slot_script : Bytes
slot_script = with_ends lines
