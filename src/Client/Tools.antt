-- ===== src/Client/Tools.antt =====
-- The functions of client/Tools.c whose text is that of server/tool.c.
use netdisk.Prelude.{Option}
use netdisk.Wire.{Text}
use netdisk.Tool.Space
use netdisk.Tool.FileName
use netdisk.Tool.Simplify

abbrev pub simplify_path : Text → Option Text
simplify_path = Simplify.simplify_path

abbrev pub reverse_string : Text → Text
reverse_string = FileName.reverse_string

abbrev pub remove_space : Text → Option Text
remove_space = Space.remove_space
