-- ===== src/Directories.antt =====
-- directories.cpp: the paths that the program works with. `CONFIG_FILE` is a variable that the
-- command line parser changes; here stands its first value.
use robotd.Common.{Bytes, codes, ◌++◌}

abbrev pub package_name : Bytes
package_name = codes "robotd"

abbrev pub package_string : Bytes
package_string = codes "robotd 1.0"

abbrev pub slash : Bytes
slash = codes "/"

abbrev pub run_dir : Bytes
run_dir = codes "/var/run"

abbrev pub etc_conf_dir : Bytes
etc_conf_dir = codes "/etc"

abbrev pub run_conf_dir : Bytes
run_conf_dir = run_dir ++ (slash ++ package_name)

abbrev pub config_load : Bytes
config_load = run_dir ++ (slash ++ (package_name ++ (slash ++ codes "configuration")))

abbrev pub pid_file : Bytes
pid_file = run_dir ++ (slash ++ (package_name ++ codes ".pid"))

abbrev pub default_config_file : Bytes
default_config_file = etc_conf_dir ++ (slash ++ (package_name ++ (slash ++ codes "General.conf")))
