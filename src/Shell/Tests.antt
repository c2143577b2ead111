-- ===== src/Shell/Tests.antt =====
-- The theorems on common/gdm-common.c at concrete inputs.
use gdm.Base.{◌≡◌, refl, Option, none, some, true, arith, if◌then◌else◌, Bytes, codes, same_bytes}
use gdm.Shell.{gdm_shell_expand, expand, step, dollar, span_var, shell_var_is_valid_char}
use gdm.Shell.Quoting.{
  gdm_shell_expand-quote, gdm_shell_expand-comment, expand-enough, Expands, IsVar,
}

abbrev home : Bytes → Option Bytes
home name = if same_bytes name (codes "HOME") then some (codes "/root") else none

home_expanded : gdm_shell_expand home (codes "$HOME/${HOME}x $NONE") ≡ some (codes "/root//rootx ")
unfolding gdm_shell_expand expand step dollar span_var shell_var_is_valid_char
home_expanded = refl

gdm_shell_expand-quote_example :
    gdm_shell_expand home (codes "\\$HOME\\#1") ≡ some (codes "$HOME#1")
gdm_shell_expand-quote_example = gdm_shell_expand-quote home (codes "$HOME#1")

home-IsVar : IsVar true (codes "HOME")
unfolding shell_var_is_valid_char
home-IsVar = (refl, (refl, (refl, (refl, tt))))

gdm_shell_expand-comment_example : gdm_shell_expand home (codes "$HOME#1") ≡ some (codes "/root")
gdm_shell_expand-comment_example =
    gdm_shell_expand-comment home b'H' (codes "OME") (codes "1") home-IsVar

expand-enough_example :
    (r : Bytes) × (Expands 9 home true (codes "$HOME\\") r
      × Expands 7 home true (codes "$HOME\\") r)
expand-enough_example = expand-enough home true (codes "$HOME\\") 9 7 (omega arith) (omega arith)
