-- ===== src/Api/Info/Laws.antt =====
-- What the two handlers for the versions of the firmware answer.
use tpi_bmcd.Base.{
  ◌≡◌, if◌then◌else◌, String, str_eq, Option, none, some, List, [], map as map_list, arith,
}
use mathlib.Core.Option
use tpi_bmcd.Base.Assoc.{lookup, text_key}
use tpi_bmcd.App.Info.{System, read_os_release}
use tpi_bmcd.App.Info.Laws.{last_value, lookup-release_lines}
use tpi_bmcd.Api.Tree.{Value, Fields, end, field, string, array, map, cons, nil}
use tpi_bmcd.Api.{LegacyResponse, success, json}
use tpi_bmcd.Api.Info.{Build, get_about, get_system_information, named, buildroot_name}

abbrev pub field_of : String → Fields → Option Value
field_of key end = none
field_of key (field k v kvs) = if str_eq k key then some v else field_of key kvs

-- A field of the object that a handler answers with, alone or in an array of one.
abbrev pub answer : String → LegacyResponse → Option Value
answer key (success (some (json (map kvs)))) = field_of key kvs
answer key (success (some (json (array (cons (map kvs) nil))))) = field_of key kvs
answer key _ = none

module _ (sys : System) (build : Build) (board : Option (String × String)) where
  -- Where every line of /etc/os-release can be read, both handlers report the version of the last line
  -- for VERSION, and the name of the last line for PRETTY_NAME; only the first handler takes the quotes
  -- off the name, and only it answers `unknown` where there is no such line.
  reported_versions :
      (lines : List String)
      → sys.os_release ≡ some (map_list some lines)
      → let version = last_value "VERSION" lines none in
        let name = last_value "PRETTY_NAME" lines none in
        (answer "version" (get_about sys build board) ≡ some (string (named version)))
        × (answer "version" (get_system_information sys build) ≡ Option.map string version)
        × (answer "buildroot" (get_about sys build board) ≡ some (string (buildroot_name name)))
        × (answer "buildroot" (get_system_information sys build) ≡ Option.map string name)
  unfolding get_about get_system_information read_os_release lookup
  reported_versions lines e =
      let (r, read, version) = lookup-release_lines "VERSION" lines [] in
      let (r', read', name) = lookup-release_lines "PRETTY_NAME" lines [] in
      ground (arith, e, read, version, read', name)
