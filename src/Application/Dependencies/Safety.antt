-- ===== src/Application/Dependencies/Safety.antt =====
-- A sync of dependency.py, and any run of its calls: uv is never asked for a package of the program.
use qiankun.Prelude.Exec.{Exec}
