-- ===== src/Application/Providers/Deletion.antt =====
-- `delete` of provider.py, by branches.
use qiankun.Prelude.{String, not, ◌==◌, is_some, if◌then◌else◌}
use qiankun.Prelude.Exec.{Error, Result, ok, err}
use qiankun.Infrastructure.Plugins.Store.{
  is_reserved, is_provider_name, main_of, delete as delete_source,
}
use qiankun.Application.Providers.{Plugins, delete, count_tasks}

-- The answer of `delete`, by the name, by whether there is a source, and by the tasks that use it.
abbrev pub deletion_answer : String → Plugins → Result (Unit {0})
deletion_answer name p =
    if is_reserved name
    then err Error.conflict
    else if not (is_some (main_of name p.files))
    then err Error.not_found
    else if not (count_tasks name p.tasks == 0)
    then err Error.conflict
    else if is_provider_name name
    then ok tt
    else err Error.validation
