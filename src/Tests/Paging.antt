-- ===== src/Tests/Paging.antt =====
-- The pages of the executions, at concrete inputs.
use qiankun.Prelude.{◌≡◌, none, arith}
use qiankun.Prelude.Exec.{ok}
use qiankun.Infrastructure.Database.{TaskExecution}
use qiankun.Application.Executions.{Page, total_pages, list_executions}
use qiankun.Application.Executions.Pages.{listed, read_pages, read_pages-listed}
use qiankun.Tests.{tables}

read_pages-listed_example :
    (page : Page TaskExecution) × ((list_executions 1 1 none none none tables).0 ≡ ok page)
    × (read_pages 1 none none none tables 0 (total_pages page) ≡ listed 1 none none none tables)
read_pages-listed_example = read_pages-listed 1 none none none tables (omega arith)
